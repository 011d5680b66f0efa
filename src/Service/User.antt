-- ===== src/Service/User.antt =====
-- Service.hpp: what the generated class and its user supply (the pure and the empty virtual methods), and
-- the protected methods that their code may call back.
use xbot_framework.Prelude.{ℕ, List, Option, none, Bool}
use xbot_framework.Service.State.{Service}
use xbot_framework.Service.Send.{send_data, start_transaction, commit_transaction}
use xbot_framework.Service.Rpc.{RpcStatus, error, send_rpc_response}

-- The protected methods. The generated dispatch sets `rpc_max_response_size_` by an assignment.
pub data Call : Type 0 where
  send_data_call : ℕ → List ℕ → Call
  start_transaction_call : ℕ → Call
  commit_transaction_call : Call
  send_rpc_response_call : ℕ → RpcStatus → Option (List ℕ) → ℕ → Call
  set_rpc_max_response_size : ℕ → Call

-- User code that ends: it makes calls, sees what each returns, and gives a result.
pub data Prog (A : Type 0) : Type 0 where
  done : A → Prog A
  call : Call → (Bool → Prog A) → Prog A

-- A virtual method with result `R` over the members that the subclass adds.
abbrev pub Method : Type 0 → Type 0 → Type 0
Method U R = U → Prog (U × R)

-- The virtual methods. `advertise` is AdvertiseServiceImpl, which the generator writes.
pub record Impl (U : Type 0) : Type 0 where
  pub on_create : Method U (Unit {0})
  pub on_start : Method U Bool
  pub on_stop : Method U (Unit {0})
  pub on_loop : ℕ → ℕ → Method U ℕ
  pub on_schedule : ℕ → Method U (Unit {0})
  pub on_transaction_start : ℕ → Method U (Unit {0})
  pub on_transaction_end : Method U (Unit {0})
  pub handle_data : ℕ → List ℕ → Method U (Unit {0})
  pub dispatch_rpc_call : ℕ → ℕ → List ℕ → Method U (Unit {0})
  pub load_configuration_defaults_impl : U → U
  pub has_registers : U → Bool
  pub all_registers_valid : U → Bool
  pub set_register : ℕ → List ℕ → Method U Bool
  pub omitted_description : Option (List ℕ)
  pub advertise : Service U → Service U

-- `Service::dispatchRpcCall`, of a service that declares no functions.
unfoldable pub default_dispatch : {U : Type 0} → ℕ → ℕ → List ℕ → Method U (Unit {0})
default_dispatch function_id call_id payload u =
    call (send_rpc_response_call call_id error none 0) (λ _. done (u, tt))

module _ {U : Type 0} where
  unfoldable pub exec : Call → Service U → Service U × Bool
  exec (send_data_call target_id content) s = send_data target_id content s
  exec (start_transaction_call timestamp) s = start_transaction timestamp s
  exec commit_transaction_call s = commit_transaction s
  exec (send_rpc_response_call call_id status content size) s =
      send_rpc_response call_id status content size s
  exec (set_rpc_max_response_size n) s = (record s { rpc_max_response_size = n }, Bool.true)

  unfoldable pub run_prog : {A : Type 0} → Prog A → Service U → Service U × A
  run_prog (done a) s = (s, a)
  run_prog (call c k) s = let (s', result) = exec c s in run_prog (k result) s'

  -- A virtual method runs on the subclass's members, which it gives back with its result.
  unfoldable pub run_method : {R : Type 0} → Method U R → Service U → Service U × R
  run_method m s = let (s', r) = run_prog (m s.user) s in (record s' { user = r.0 }, r.1)
