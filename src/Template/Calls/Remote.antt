-- ===== src/Template/Calls/Remote.antt =====
-- A call from the generated interface to the generated service, by the packets between them.
use xbot_framework.Prelude.{
  ℕ, ◌<◌, ◌^◌, ◌≡◌, refl, sym, subst, ◌∙◌, List, ◌∷◌, ◌++◌, Bool, true, false, arith, length, add16,
  u16_mod, u32_mod,
}
use xbot_framework.Wire.Header.{InRange, encode_header}
use xbot_framework.Service.State.{Service}
use xbot_framework.Service.User.{Impl, run_method}
use xbot_framework.Service.Handlers.{process_packet, handle_message, handle_rpc_call}
use xbot_framework.Service.Packets.{process_packet-encoded, next_header-InRange}
use xbot_framework.Interface.Base.{Base, fill_base_header, await_free, begin_rpc}
use xbot_framework.Interface.Base.Rpc.{prepared, begin_rpc-sent}

-- The members of an interface and of its next header fit their widths.
pub record FitsWire (b : Base) : Type 0 where
  pub id_fits : b.service_id < u16_mod
  pub time_fits : b.time_micros < 2 ^ 64
  pub header_fits : InRange b.header

-- The service's state while it works on a call.
abbrev pub in_call : {U : Type 0} → ℕ → Service U → Service U
in_call call_id s = record s { rpc_in_progress = true; rpc_pending_call_id = call_id }

-- The packet that a call sends.
abbrev pub call_packet : ℕ → List ℕ → Base → List ℕ
call_packet function_id params b =
    encode_header (prepared function_id params b).buffer_header ++ params

call_header-InRange :
    (function_id : ℕ) (params : List ℕ) (b : Base)
    → function_id < 256
    → length params < u32_mod
    → FitsWire b
    → InRange (prepared function_id params b).buffer_header
unfolding fill_base_header
call_header-InRange function_id params b f short fits =
    let ok =
      next_header-InRange b.service_id b.time_micros b.header fits.id_fits fits.time_fits
        fits.header_fits in
    record {
      version_fits = ok.version_fits;
      type_fits = tt;
      flags_fit = ok.flags_fit;
      reserved1_fits = ok.reserved1_fits;
      id_fits = ok.id_fits;
      arg1_fits = f;
      reserved2_fits = ok.reserved2_fits;
      arg2_fits = omega arith;
      sequence_fits = ok.sequence_fits;
      timestamp_fits = ok.timestamp_fits;
      payload_fits = short;
    }

module _ {U : Type 0} (impl : Impl U) where
  pub packet-dispatched :
      (function_id : ℕ) (params : List ℕ) (b : Base) (s : Service U)
      → function_id < 256
      → length params < u32_mod
      → FitsWire b
      → s.is_running ≡ true
      → s.rpc_in_progress ≡ false
      → process_packet impl (call_packet function_id params b) s
        ≡ (run_method
            (impl.dispatch_rpc_call function_id (add16 b.rpc_call_counter 1) params)
            (in_call (add16 b.rpc_call_counter 1) s)).0
  unfolding handle_message handle_rpc_call
  packet-dispatched function_id params b s f short fits runs idle =
      process_packet-encoded impl (prepared function_id params b).buffer_header params s
        (call_header-InRange function_id params b f short fits) refl
      ∙ rw (runs, idle) refl

  -- A call of a discovered service that an interface can send once no other call is in flight sends one packet,
  -- which a running service with no call in progress takes as a dispatch of the same function, with the same
  -- parameters and the call ID that the interface waits for.
  pub call_packet-dispatched :
      (others : Base → Base) (function_id : ℕ) (params : List ℕ) (response_max : ℕ) (b : Base)
      (s : Service U)
      → function_id < 256
      → length params < u32_mod
      → b.service_discovered ≡ true
      → (await_free others b).io_sends ≡ true
      → FitsWire (await_free others b)
      → s.is_running ≡ true
      → s.rpc_in_progress ≡ false
      → let (b', begun) = begin_rpc others function_id params response_max b in
        (begun ≡ true)
        × ((packet : List ℕ) × (b'.sent ≡ packet ∷ (await_free others b).sent)
            × (b'.rpc_call_active ≡ true)
            × (process_packet impl packet s
                ≡ (run_method
                    (impl.dispatch_rpc_call function_id b'.pending_call_id params)
                    (in_call b'.pending_call_id s)).0))
  call_packet-dispatched others function_id params response_max b s f short known sends fits runs
        idle =
      let free = await_free others b in
      subst
        (λ (r : Base × Bool).
          (r.1 ≡ true)
          × ((packet : List ℕ) × (r.0.sent ≡ packet ∷ free.sent)
              × (r.0.rpc_call_active ≡ true)
              × (process_packet impl packet s
                  ≡ (run_method (impl.dispatch_rpc_call function_id r.0.pending_call_id params)
                      (in_call r.0.pending_call_id s)).0)))
        (sym (begin_rpc-sent others function_id params response_max b known sends))
        (
          refl,
          (
            call_packet function_id params free,
            refl,
            refl,
            packet-dispatched function_id params free s f short fits runs idle,
          ),
        )
