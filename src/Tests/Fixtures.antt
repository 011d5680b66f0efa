-- ===== src/Tests/Fixtures.antt =====
-- A service that stores what it is handed, answers each RPC with its parameters, and has one register.
use xbot_framework.Prelude.{ℕ, List, [], ◌∷◌, some, true, false, not, ◌==◌, length}
use xbot_framework.Wire.Header.{empty_header}
use xbot_framework.Wire.Frames.{Frame}
use xbot_framework.Interface.Base.{Base}
use xbot_framework.Service.State.{Service, started}
use xbot_framework.Service.Rpc.{success}
use xbot_framework.Service.User.{
  Impl, Prog, done, call, send_rpc_response_call, set_rpc_max_response_size,
}

pub record Store : Type 0 where
  pub received : List Frame
  pub register : List ℕ

abbrev pub empty_store : Store
empty_store = record { received = []; register = [] }

abbrev pub quiet : {R : Type 0} → R → Store → Prog (Store × R)
quiet r u = done (u, r)

abbrev pub store_service : Impl Store
store_service = record {
  on_create = quiet tt;
  on_start = quiet true;
  on_stop = quiet tt;
  on_loop = λ now last. quiet 500000;
  on_schedule = λ i. quiet tt;
  on_transaction_start = λ timestamp. quiet tt;
  on_transaction_end = quiet tt;
  handle_data = λ target_id content u. done (
    record u { received = record { target_id = target_id; content = content } ∷ u.received },
    tt,
  );
  dispatch_rpc_call = λ function_id call_id payload u. call (set_rpc_max_response_size 100) (λ _.
      call (send_rpc_response_call call_id success (some payload) (length payload))
        (λ _. done (u, tt)));
  load_configuration_defaults_impl = λ u. record u { register = [] };
  has_registers = λ u. true;
  all_registers_valid = λ u. not (length u.register == 0);
  set_register = λ target_id content u. done (record u { register = content }, target_id == 7);
  omitted_description = some (1 ∷ 2 ∷ 3 ∷ 4 ∷ 5 ∷ []);
  advertise = λ s. s;
}

abbrev pub fresh : Service Store
fresh = started 5 [] empty_store

-- The service once an interface has claimed it.
abbrev pub claimed : Service Store
claimed = record fresh { target_ip = 2130706433; target_port = 4242; time_micros = 1000 }

-- An interface whose service is discovered.
abbrev pub base : Base
base = record {
  service_id = 5;
  header = empty_header;
  buffer_header = empty_header;
  buffer = [];
  transaction_started = false;
  is_configuration_transaction = false;
  service_discovered = true;
  io_callbacks_registered = true;
  type_name = 65 ∷ [];
  version = 1;
  rpc_call_counter = 6;
  pending_call_id = 6;
  rpc_call_active = false;
  rpc_response_status = 0;
  rpc_response = [];
  rpc_response_payload_size = 0;
  rpc_received_size = 0;
  time_micros = 1000;
  io_sends = true;
  sent = [];
}
