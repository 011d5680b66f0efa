-- ===== src/Tests/Template.antt =====
-- The generated service with a user that stores what it is handed and answers with a sum.
use xbot_framework.Prelude.{
  ℕ, ◌+◌, ◌^◌, ◌%◌, ◌≡◌, refl, List, [], ◌∷◌, ◌++◌, Option, none, some, true, false, arith,
  if◌then◌else◌, leb, take,
}
use xbot_framework.Wire.Bytes.{le_bytes, le_value, read_le}
use xbot_framework.Wire.Header.{empty_header, InRange}
use xbot_framework.Wire.Frames.{Frame, encode_frame, encode_frames, encode_descriptor}
use xbot_framework.Portable.Packet.{Datagram}
use xbot_framework.Service.State.{Service, started}
use xbot_framework.Service.Rpc.{success}
use xbot_framework.Service.User.{
  Prog, done, call, run_method, send_rpc_response_call, set_rpc_max_response_size,
}
use xbot_framework.Service.Handlers.{process_packet, handle_configuration_transaction}
use xbot_framework.Service.Loop.{begin_processing}
use xbot_framework.Service.Status.{IsConsistent}
use xbot_framework.Service.Status.Running.{run_rounds}
use xbot_framework.Interface.Base.{begin_rpc}
use xbot_framework.Interface.Maps.{find}
use xbot_framework.Interface.Io.State.{Io, Event}
use xbot_framework.Interface.Io.Messages.{io_receive}
use xbot_framework.Template.Members.{Template, Protected, Callbacks, new_template, user_method}
use xbot_framework.Template.Params.{parse, no_scalar_params, scalar_switch, label_size}
use xbot_framework.Template.Params.Laws.{note_frames, parse-encode_frames}
use xbot_framework.Template.Calls.{template_dispatch, call_user, refuse_call}
use xbot_framework.Template.Calls.RoundTrip.{dispatch-append_chars}
use xbot_framework.Template.Calls.Parsed.{filled}
use xbot_framework.Template.Calls.Frames.{scalar_frames}
use xbot_framework.Template.Calls.Missing.{dispatch-three_speeds, three_speeds}
use xbot_framework.Template.Calls.Remote.{FitsWire, in_call, call_packet-dispatched}
use xbot_framework.Template.Calls.Returns.{ServiceFits, hear, scalar_call-returned}
use xbot_framework.Template.Registers.Configured.{configure-running}
use xbot_framework.Template.Registers.Sent.{configure}
use xbot_framework.Template.Registers.Incomplete.{configuration-incomplete}
use xbot_framework.Template.Advertise.{Endpoint, send_advertisement}
use xbot_framework.Template.Advertise.Running.{template_rounds-IsConsistent}
use xbot_framework.Template.Generated.{template_service}
use xbot_framework.Template.Client.{begin_scalar_params, end_number, append_chars}
use xbot_framework.Tests.Fixtures.{base, store_service, claimed}

-- The user's class has a counter.
abbrev ends : {R : Type 0} → R → Protected ℕ → Prog (Protected ℕ × R)
ends r p = done (p, r)

abbrev sums : ℕ → ℕ → ℕ → ℕ
sums x y z = (x + (y + z)) % 2 ^ 32

abbrev pub user : Callbacks ℕ
user = record {
  on_create = ends tt;
  on_start = ends true;
  on_stop = ends tt;
  on_loop = λ now last. ends 500000;
  on_schedule = λ i. ends tt;
  on_transaction_start = λ timestamp. ends tt;
  on_transaction_end = ends tt;
  on_example_input1_changed = λ chars p. done (record p { derived = p.derived + chars.length }, tt);
  on_example_input2_changed = λ n p. done (record p { derived = n }, tt);
  on_register_register3_changed = λ payload. ends true;
  rpc_no_params_no_return = λ call_id. ends tt;
  rpc_scalar_params_with_return = λ call_id x y z p.
      call (send_rpc_response_call call_id success (some (le_bytes 4 (sums x y z))) 4)
        (λ _. done (p, tt));
  rpc_array_param_no_return = λ call_id label. ends tt;
  rpc_mixed_params_with_return = λ call_id name value. ends tt;
}

abbrev endpoint : Endpoint
endpoint = record { address = 49 ∷ 46 ∷ 50 ∷ []; port = 4242 }

abbrev pub endpoint_at : ℕ → Option Endpoint
endpoint_at now = some endpoint

abbrev pub members : Template ℕ
members = new_template 7

abbrev pub new_service : Service (Template ℕ)
new_service = started 5 [] members

-- The service once it is claimed and runs.
abbrev pub running : Service (Template ℕ)
running = record new_service {
  target_ip = 2130706433;
  target_port = 4242;
  time_micros = 1000;
  is_running = true;
}

pub empty-InRange : InRange empty_header
empty-InRange = record {
  version_fits = omega arith;
  type_fits = tt;
  flags_fit = omega arith;
  reserved1_fits = omega arith;
  id_fits = omega arith;
  arg1_fits = omega arith;
  reserved2_fits = omega arith;
  arg2_fits = omega arith;
  sequence_fits = omega arith;
  timestamp_fits = omega arith;
  payload_fits = omega arith;
}

base-FitsWire : FitsWire base
base-FitsWire = record {
  id_fits = omega arith;
  time_fits = omega arith;
  header_fits = empty-InRange;
}

pub running-ServiceFits : ServiceFits running
unfolding started
running-ServiceFits = record {
  id_fits = omega arith;
  time_fits = omega arith;
  header_fits = record {
    version_fits = omega arith;
    type_fits = tt;
    flags_fit = omega arith;
    reserved1_fits = omega arith;
    id_fits = omega arith;
    arg1_fits = omega arith;
    reserved2_fits = omega arith;
    arg2_fits = omega arith;
    sequence_fits = omega arith;
    timestamp_fits = omega arith;
    payload_fits = omega arith;
  };
}

-- The claimer's ServiceIO, with one callback for the service.
abbrev pub claimer : Io ℕ
claimer = record {
  discovery = record { discovered_services = []; registered_callbacks = [] };
  endpoint_map =
      (5, record { claimed_successfully = true; last_claim_sent = 7; last_heartbeat_received = 8 })
      ∷ [];
  registered_callbacks = (5, 200 ∷ []) ∷ [];
  last_check = 0;
  events = [];
  sent = [];
  socket_sends = true;
  own_endpoint = some (3, 4);
  configures = λ c i. false;
}

scalar_call-returned_example :
    let (b', begun) = begin_scalar_params (λ b. b) 3 4 5 base in
    (begun ≡ true)
    × ((packet : List ℕ) × (b'.sent ≡ packet ∷ [])
        × (let s' = process_packet (template_service user endpoint_at) packet running in
            (s'.rpc_in_progress ≡ false)
            × ((reply : Datagram) × (s'.sent ≡ reply ∷ [])
                × (reply.ip ≡ 2130706433)
                × (reply.port ≡ 4242)
                × ((e : Event) × ((io_receive 9 reply.bytes claimer).events ≡ e ∷ [])
                    × ((end_number 4 (hear b' e)).1 ≡ some 12)))))
unfolding started find
scalar_call-returned_example =
    scalar_call-returned user endpoint_at sums (λ call_id x y z p. refl) (λ b. b) 3 4 5 base running
      9 200 claimer (omega arith) (omega arith) (omega arith) (omega arith) refl refl base-FitsWire
      running-ServiceFits refl refl refl refl refl refl

abbrev text : List ℕ
text = 104 ∷ 105 ∷ []

configure-running_example :
    (packet : List ℕ) × ((configure text 9 base).0.sent ≡ packet ∷ [])
    × (let s' = process_packet (template_service user endpoint_at) packet running in
        (s'.is_running ≡ true)
        × (s'.config_required ≡ false)
        × (take 2 s'.user.protected.register1.value ≡ text)
        × (s'.user.protected.register1.length ≡ 2)
        × (s'.user.protected.register1.valid ≡ true)
        × (s'.user.protected.register2 ≡ record { value = 9; valid = true }))
configure-running_example =
    configure-running user endpoint_at (λ p. refl) text 9 base running (omega arith) (omega arith)
      (omega arith) base-FitsWire refl refl refl

abbrev only_register1 : List Frame
only_register1 = record { target_id = 0; content = text } ∷ []

configuration-incomplete_example :
    let s' =
      handle_configuration_transaction
        (template_service user endpoint_at)
        (encode_frames only_register1)
        running in
    (s'.is_running ≡ false) × (s'.config_required ≡ true)
unfolding encode_frames encode_frame encode_descriptor le_bytes
configuration-incomplete_example =
    configuration-incomplete user endpoint_at (λ payload p lacks. lacks) only_register1 running
      (omega arith, tt) (record { id_fits = omega arith; size_fits = omega arith }, tt)
      ((omega arith, (omega arith, tt)), tt) (omega arith)

template_rounds-IsConsistent_example :
    IsConsistent
      (run_rounds
        (template_service user endpoint_at)
        (record { now = 1000000; packet = none } ∷ record { now = 2000000; packet = none } ∷ [])
        (begin_processing (template_service user endpoint_at) new_service)).service
template_rounds-IsConsistent_example =
    template_rounds-IsConsistent endpoint_at user 5 [] 7
      (record { now = 1000000; packet = none } ∷ record { now = 2000000; packet = none } ∷ [])

-- A service that advertised itself once, and was then claimed and configured.
abbrev advertised : Service (Template ℕ)
advertised = record (send_advertisement endpoint new_service) {
  target_ip = 2130706433;
  target_port = 4242;
  config_required = false;
  is_running = true;
  user = record ((send_advertisement endpoint new_service).user) {
    protected = record (((send_advertisement endpoint new_service).user).protected) {
      register2 = record { value = 9; valid = true };
    };
  };
}

dispatch-append_chars_example :
    (params : List ℕ) × (append_chars 0 (some text) 2 [] ≡ some params)
    × (template_dispatch user 2 8 params ≡ (
        if leb 2 label_size
        then call_user 0 (user_method (user.rpc_array_param_no_return 8 (filled label_size text)))
        else refuse_call 8))
dispatch-append_chars_example = dispatch-append_chars user 8 text (omega arith) (omega arith)

dispatch-three_speeds_example :
    template_dispatch user 1 8 (encode_frames (three_speeds 1 2 3)) members
    ≡ call
        (set_rpc_max_response_size 4)
        (λ _. user_method (user.rpc_scalar_params_with_return 8 3 0 0) members)
dispatch-three_speeds_example = dispatch-three_speeds user 8 1 2 3 members (omega arith)

-- A call with a descriptor behind its parameters that declares ten bytes and has one.
parse-encode_frames_example :
    parse scalar_switch
      (encode_frames (scalar_frames 3 4 5) ++ (1 ∷ 0 ∷ 0 ∷ 0 ∷ 10 ∷ 0 ∷ 0 ∷ 0 ∷ 9 ∷ []))
      no_scalar_params
    ≡ record (note_frames scalar_switch
        (scalar_frames 3 4 5)
        (record { params = no_scalar_params; parse_ok = true; params_received = 0 })) {
          parse_ok = false;
        }
unfolding encode_frames encode_frame encode_descriptor le_bytes read_le le_value
parse-encode_frames_example =
    parse-encode_frames scalar_switch (scalar_frames 3 4 5)
      (1 ∷ 0 ∷ 0 ∷ 0 ∷ 10 ∷ 0 ∷ 0 ∷ 0 ∷ 9 ∷ []) no_scalar_params (omega arith) (omega arith)
      (
        record { id_fits = omega arith; size_fits = omega arith },
        (
          record { id_fits = omega arith; size_fits = omega arith },
          (record { id_fits = omega arith; size_fits = omega arith }, tt),
        ),
      )
      (omega arith)

call_packet-dispatched_example :
    let (b', begun) = begin_rpc (λ b. b) 2 text 0 base in
    (begun ≡ true)
    × ((packet : List ℕ) × (b'.sent ≡ packet ∷ [])
        × (b'.rpc_call_active ≡ true)
        × (process_packet store_service packet (record claimed { is_running = true })
            ≡ (run_method
                (store_service.dispatch_rpc_call 2 b'.pending_call_id text)
                (in_call b'.pending_call_id (record claimed { is_running = true }))).0))
unfolding started
call_packet-dispatched_example =
    call_packet-dispatched store_service (λ b. b) 2 text 0 base
      (record claimed { is_running = true }) (omega arith) (omega arith) refl refl base-FitsWire
      refl refl
