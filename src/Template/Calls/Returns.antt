-- ===== src/Template/Calls/Returns.antt =====
-- CallScalarParamsWithReturn from its parameters to its result, through both generated classes.
use xbot_framework.Prelude.{
  ℕ, ◌<◌, ◌^◌, ◌≡◌, refl, ap, sym, subst, ◌∙◌, List, [], ◌∷◌, Option, some, Bool, true, false, not,
  ◌==◌, if◌then◌else◌, arith, ==_refl, length, add16, u16_mod, u32_mod,
}
use xbot_framework.Wire.Bytes.{le_bytes, le_value-le_bytes, length-le_bytes}
use xbot_framework.Wire.Header.{Header, InRange, rpc_response}
use xbot_framework.Wire.Frames.{encode_descriptor}
use xbot_framework.Portable.Packet.{Datagram}
use xbot_framework.Service.State.{Service, is_claimed}
use xbot_framework.Service.Send.{next_header}
use xbot_framework.Service.Rpc.{success, status_code, send_rpc_response}
use xbot_framework.Service.User.{
  Prog, run_method, run_prog, exec, call, done, send_rpc_response_call, set_rpc_max_response_size,
}
use xbot_framework.Service.Handlers.{process_packet}
use xbot_framework.Service.Packets.{next_header-InRange}
use xbot_framework.Service.Responses.{answer, transmit-keeps_rpc, transmit-sent}
use xbot_framework.Interface.Base.{Base, on_rpc_response, base_on_rpc_response, await_free}
use xbot_framework.Interface.Io.State.{Io, Event, rpc_response_received, callbacks_of}
use xbot_framework.Interface.Io.Messages.{io_receive, serves}
use xbot_framework.Interface.Io.Packets.{io_receive-response}
use xbot_framework.Interface.Base.Rpc.{begin_rpc-sent, begin_rpc-first_answer}
use xbot_framework.Interface.Base.Waiting.{response, take_in, first_answer}
use xbot_framework.Template.Members.{Template, Protected, Callbacks, user_method, over_private}
use xbot_framework.Template.Generated.{template_service}
use xbot_framework.Template.Advertise.{Endpoint}
use xbot_framework.Template.Calls.{template_dispatch}
use xbot_framework.Template.Calls.RoundTrip.{dispatch-scalar_params_buf}
use xbot_framework.Template.Calls.Remote.{FitsWire, in_call, call_packet, packet-dispatched}
use xbot_framework.Template.Client.{
  scalar_params_buf, begin_scalar_params, end_number, number_result, append_param,
}

-- The members of a service and of its next header fit their widths.
pub record ServiceFits {V : Type 0} (s : Service V) : Type 0 where
  pub id_fits : s.service_id < u16_mod
  pub time_fits : s.time_micros < 2 ^ 64
  pub header_fits : InRange s.header

-- The user's method answers at once with a number.
abbrev reply_prog : {V : Type 0} → ℕ → ℕ → Template V → Prog (Template V × Unit {0})
reply_prog call_id v t =
    call (set_rpc_max_response_size 4) (λ _.
      call (send_rpc_response_call call_id success (some (le_bytes 4 v)) 4) (λ _. done (t, tt)))

module _ {V : Type 0} where
  -- The state in which the answer is transmitted.
  abbrev replying : ℕ → Service V → Service V
  replying call_id s = record (in_call call_id s) {
    rpc_max_response_size = 4;
    rpc_in_progress = false;
  }

  reply-sent :
      (call_id v : ℕ) (s : Service V)
      → is_claimed s ≡ true
      → let s' =
          (send_rpc_response call_id success
            (some (le_bytes 4 v))
            4
            (record (in_call call_id s) { rpc_max_response_size = 4 })).0 in
        (s'.rpc_in_progress ≡ false) × (s'.sent ≡ answer call_id success (le_bytes 4 v) s ∷ s.sent)
  unfolding send_rpc_response le_bytes
  reply-sent call_id v s claimed = rw (==_refl call_id) (
    (transmit-keeps_rpc call_id success (some (le_bytes 4 v)) 4 (replying call_id s)).0,
    transmit-sent call_id success (some (le_bytes 4 v)) 4 (replying call_id s) claimed refl
        (omega arith),
  )

  answer_header : ℕ → ℕ → Service V → Header
  answer_header call_id size s = record (next_header s.service_id s.time_micros s.header) {
    message_type = rpc_response;
    arg1 = status_code success;
    arg2 = call_id;
    payload_size = size;
  }

  answer_header-InRange :
      (call_id size : ℕ) (s : Service V)
      → call_id < u16_mod
      → size < u32_mod
      → ServiceFits s
      → InRange (answer_header call_id size s)
  unfolding answer_header
  answer_header-InRange call_id size s id short fits =
      let ok =
        next_header-InRange s.service_id s.time_micros s.header fits.id_fits fits.time_fits
          fits.header_fits in
      record {
        version_fits = ok.version_fits;
        type_fits = tt;
        flags_fit = ok.flags_fit;
        reserved1_fits = ok.reserved1_fits;
        id_fits = ok.id_fits;
        arg1_fits = omega arith;
        reserved2_fits = ok.reserved2_fits;
        arg2_fits = id;
        sequence_fits = ok.sequence_fits;
        timestamp_fits = ok.timestamp_fits;
        payload_fits = short;
      }

-- The interface as a callback of ServiceIO, at a response.
abbrev pub hear : Base → Event → Base
hear b (rpc_response_received c service_id call_id status payload) =
    base_on_rpc_response service_id call_id status payload b
hear b _ = b

module _ {V : Type 0} (c : Callbacks V) (get_endpoint : ℕ → Option Endpoint) (f : ℕ → ℕ → ℕ → ℕ)
    (answers : (call_id x y z : ℕ) (p : Protected V)
      → c.rpc_scalar_params_with_return call_id x y z p
        ≡ call
            (send_rpc_response_call call_id success (some (le_bytes 4 (f x y z))) 4)
            (λ _. done (p, tt))) where
  dispatched-reply :
      (call_id x y z : ℕ) (t : Template V)
      → x < u32_mod
      → y < u32_mod
      → z < 256
      → template_dispatch c 1 call_id (scalar_params_buf x y z) t ≡ reply_prog call_id (f x y z) t
  unfolding user_method over_private
  dispatched-reply call_id x y z t hx hy hz =
      dispatch-scalar_params_buf c call_id x y z t hx hy hz
      ∙ ap
          (λ (m : Prog (Protected V × Unit {0})).
            call (set_rpc_max_response_size 4) (λ _. over_private t m))
          (answers call_id x y z t.protected)

  served :
      (x y z : ℕ) (b : Base) (s : Service (Template V))
      → x < u32_mod
      → y < u32_mod
      → z < 256
      → FitsWire b
      → s.is_running ≡ true
      → s.rpc_in_progress ≡ false
      → is_claimed s ≡ true
      → let call_id = add16 b.rpc_call_counter 1 in
        let s' =
          process_packet
            (template_service c get_endpoint)
            (call_packet 1 (scalar_params_buf x y z) b)
            s in
        (s'.rpc_in_progress ≡ false)
        × (s'.sent ≡ answer call_id success (le_bytes 4 (f x y z)) s ∷ s.sent)
  unfolding scalar_params_buf append_param encode_descriptor run_method run_prog exec le_bytes
  served x y z b s hx hy hz fits runs idle claimed =
      let call_id = add16 b.rpc_call_counter 1 in
      subst
        (λ (t : Service (Template V)).
          (t.rpc_in_progress ≡ false)
          × (t.sent ≡ answer call_id success (le_bytes 4 (f x y z)) s ∷ s.sent))
        (sym (
          packet-dispatched (template_service c get_endpoint) 1 (scalar_params_buf x y z) b s
            (omega arith) (omega arith) fits runs idle
          ∙ ap
              (λ (m : Prog (Template V × Unit {0})).
                let (s', r) = run_prog m (in_call call_id s) in record s' { user = r.0 })
              (dispatched-reply call_id x y z s.user hx hy hz)))
        (reply-sent call_id (f x y z) s claimed)

  received :
      (others : Base → Base) (x y z : ℕ) (b : Base) (service_id : ℕ) (c' : ℕ)
      → f x y z < u32_mod
      → b.service_discovered ≡ true
      → (await_free others b).io_sends ≡ true
      → service_id ≡ (await_free others b).service_id
      → let call_id = add16 (await_free others b).rpc_call_counter 1 in
        (end_number 4 (
          hear
            (begin_scalar_params others x y z b).0
            (rpc_response_received c' service_id call_id 0 (le_bytes 4 (f x y z))))).1
        ≡ some (f x y z)
  unfolding begin_scalar_params end_number base_on_rpc_response take_in first_answer le_bytes
  received others x y z b service_id c' fits_v known sends same =
      let free = await_free others b in
      let call_id = add16 free.rpc_call_counter 1 in
      let params = scalar_params_buf x y z in
      let payload = le_bytes 4 (f x y z) in
      ap
        (λ (own : Bool).
          (end_number 4 (
            if not own
            then (begin_scalar_params others x y z b).0
            else on_rpc_response call_id 0 payload (begin_scalar_params others x y z b).0)).1)
        (ap (λ (t : Base × Bool). service_id == t.0.service_id)
            (begin_rpc-sent others 1 params 4 b known sends)
          ∙ (ap (λ (i : ℕ). i == free.service_id) same ∙ ==_refl free.service_id))
      ∙ (ap (number_result 4)
            (begin_rpc-first_answer others 1 params 4 (response call_id 0 payload ∷ []) b known
              sends).1
          ∙ rw (==_refl call_id) (ap some (le_value-le_bytes 4 (f x y z) fits_v)))

  heard :
      {D : Type 0} (now call_id v c' : ℕ) (s : Service (Template V)) (io : Io D)
      → call_id < u16_mod
      → ServiceFits s
      → serves s.service_id io ≡ true
      → callbacks_of s.service_id io ≡ c' ∷ []
      → (io_receive now (answer call_id success (le_bytes 4 v) s).bytes io).events
        ≡ rpc_response_received c' s.service_id call_id 0 (le_bytes 4 v) ∷ io.events
  unfolding answer_header next_header
  heard now call_id v c' s io small fits served_there one =
      let payload = le_bytes 4 v in
      io_receive-response now (answer_header call_id (length payload) s) payload c' io
        (answer_header-InRange call_id (length payload) s small (omega (arith, length-le_bytes 4 v))
          fits)
        refl refl served_there one

  -- A user's method that answers each call with a number: a call of CallScalarParamsWithReturn by an interface
  -- that has discovered the service and can send once no other call is in flight, handled by the claimed and
  -- running service with no call in progress, sends one packet there and one back to the claimer, and ends the
  -- call on the service. The ServiceIO of the claimer, with the interface as the service's only callback, turns
  -- that reply into one event, with which the call returns the number of the parameters that the interface
  -- passed, if no other response and no loss of the service comes first.
  pub scalar_call-returned :
      {D : Type 0} (others : Base → Base) (x y z : ℕ) (b : Base) (s : Service (Template V))
      (now c' : ℕ) (io : Io D)
      → x < u32_mod
      → y < u32_mod
      → z < 256
      → f x y z < u32_mod
      → b.service_discovered ≡ true
      → (await_free others b).io_sends ≡ true
      → FitsWire (await_free others b)
      → ServiceFits s
      → s.service_id ≡ (await_free others b).service_id
      → is_claimed s ≡ true
      → s.is_running ≡ true
      → s.rpc_in_progress ≡ false
      → serves s.service_id io ≡ true
      → callbacks_of s.service_id io ≡ c' ∷ []
      → let (b', begun) = begin_scalar_params others x y z b in
        (begun ≡ true)
        × ((packet : List ℕ) × (b'.sent ≡ packet ∷ (await_free others b).sent)
            × (let s' = process_packet (template_service c get_endpoint) packet s in
                (s'.rpc_in_progress ≡ false)
                × ((reply : Datagram) × (s'.sent ≡ reply ∷ s.sent)
                    × (reply.ip ≡ s.target_ip)
                    × (reply.port ≡ s.target_port)
                    × ((e : Event) × ((io_receive now reply.bytes io).events ≡ e ∷ io.events)
                        × ((end_number 4 (hear b' e)).1 ≡ some (f x y z))))))
  unfolding begin_scalar_params
  scalar_call-returned others x y z b s now c' io hx hy hz hv known sends fits fits_s same claimed
        runs idle served_there one =
      let free = await_free others b in
      let call_id = add16 free.rpc_call_counter 1 in
      let params = scalar_params_buf x y z in
      let done_there = served x y z free s hx hy hz fits runs idle claimed in
      let begun = begin_rpc-sent others 1 params 4 b known sends in
      (
        ap (λ (r : Base × Bool). r.1) begun,
        (
          call_packet 1 params free,
          ap (λ (r : Base × Bool). r.0.sent) begun,
          (
            done_there.0,
            (
              answer call_id success (le_bytes 4 (f x y z)) s,
              done_there.1,
              refl,
              refl,
              (
                rpc_response_received c' s.service_id call_id 0 (le_bytes 4 (f x y z)),
                heard now call_id (f x y z) c' s io (omega arith) fits_s served_there one,
                received others x y z b s.service_id c' hv known sends same,
              ),
            ),
          ),
        ),
      )
