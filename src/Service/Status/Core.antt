-- ===== src/Service/Status/Core.antt =====
-- The members that user code cannot change by its calls: the scheduler, the target and the status.
use xbot_framework.Prelude.{ℕ, ◌≡◌, refl, ◌∙◌, List, Bool, Option, none, arith}
use xbot_framework.Scheduler.{Scheduler}
use xbot_framework.Service.State.{Service}
use xbot_framework.Service.Send.{
  transmit, send_with, send_data, send_data_claim_ack, start_transaction, commit_transaction,
  send_heartbeat, send_configuration_request,
}
use xbot_framework.Service.Rpc.{RpcStatus, error, transmit_rpc_response, send_rpc_response}
use xbot_framework.Service.User.{
  Call, send_data_call, start_transaction_call, commit_transaction_call, send_rpc_response_call,
  set_rpc_max_response_size, Prog, done, call, Method, exec, run_prog, run_method,
}

pub record Core : Type 0 where
  pub scheduler : Scheduler
  pub target_ip : ℕ
  pub target_port : ℕ
  pub config_required : Bool
  pub sd_discovery_timed_out : Bool
  pub is_running : Bool

module _ {U : Type 0} where
  abbrev pub core : Service U → Core
  core s = record {
    scheduler = s.scheduler;
    target_ip = s.target_ip;
    target_port = s.target_port;
    config_required = s.config_required;
    sd_discovery_timed_out = s.sd_discovery_timed_out;
    is_running = s.is_running;
  }

  core-send_data :
      (target_id : ℕ) (content : List ℕ) (s : Service U)
      → core (send_data target_id content s).0 ≡ core s
  unfolding send_data send_with transmit
  core-send_data target_id content s = ground arith

  core-start_transaction :
      (timestamp : ℕ) (s : Service U) → core (start_transaction timestamp s).0 ≡ core s
  unfolding start_transaction
  core-start_transaction timestamp s = ground arith

  core-commit_transaction : (s : Service U) → core (commit_transaction s).0 ≡ core s
  unfolding commit_transaction send_with transmit
  core-commit_transaction s = ground arith

  pub core-send_data_claim_ack : (s : Service U) → core (send_data_claim_ack s).0 ≡ core s
  unfolding send_data_claim_ack send_with transmit
  core-send_data_claim_ack s = ground arith

  pub core-send_heartbeat : (s : Service U) → core (send_heartbeat s) ≡ core s
  unfolding send_heartbeat send_with transmit
  core-send_heartbeat s = refl

  pub core-send_configuration_request :
      (s : Service U) → core (send_configuration_request s) ≡ core s
  unfolding send_configuration_request send_with transmit
  core-send_configuration_request s = refl

  pub core-transmit_rpc_response :
      (call_id : ℕ) (status : RpcStatus) (content : Option (List ℕ)) (size : ℕ) (s : Service U)
      → core (transmit_rpc_response call_id status content size s).0 ≡ core s
  unfolding transmit_rpc_response send_with transmit
  core-transmit_rpc_response call_id status content size s = ground arith

  core-send_rpc_response :
      (call_id : ℕ) (status : RpcStatus) (content : Option (List ℕ)) (size : ℕ) (s : Service U)
      → core (send_rpc_response call_id status content size s).0 ≡ core s
  unfolding send_rpc_response
  core-send_rpc_response call_id status content size s =
      let s' : Service U = record s { rpc_in_progress = Bool.false } in
      ground (
        arith,
        core-transmit_rpc_response call_id status content size s',
        core-transmit_rpc_response call_id error none 0 s',
      )

  core-exec : (c : Call) (s : Service U) → core (exec c s).0 ≡ core s
  unfolding exec
  core-exec (send_data_call target_id content) s = core-send_data target_id content s
  core-exec (start_transaction_call timestamp) s = core-start_transaction timestamp s
  core-exec commit_transaction_call s = core-commit_transaction s
  core-exec (send_rpc_response_call call_id status content size) s =
      core-send_rpc_response call_id status content size s
  core-exec (set_rpc_max_response_size n) s = refl

  core-run_prog : {A : Type 0} (p : Prog A) (s : Service U) → core (run_prog p s).0 ≡ core s
  unfolding run_prog
  core-run_prog (done a) s = refl
  core-run_prog (call c k) s = core-run_prog (k (exec c s).1) (exec c s).0 ∙ core-exec c s

  -- User code leaves the core of its service as it was, whatever calls it makes.
  pub core-run_method :
      {R : Type 0} (m : Method U R) (s : Service U) → core (run_method m s).0 ≡ core s
  unfolding run_method
  core-run_method m s = core-run_prog (m s.user) s
