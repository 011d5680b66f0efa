-- ===== src/Template/Registers/Configured.antt =====
-- A configuration transaction from the generated interface to the generated service.
use xbot_framework.Prelude.{
  ℕ, ◌%◌, ◌<◌, ◌≤◌, ◌≡◌, refl, ap, sym, subst, ◌∙◌, List, [], ◌∷◌, ◌++◌, Option, Bool, true, false,
  ◌&&◌, arith, if◌then◌else◌, le→ltb, ==_refl, length, take, take-append, u32_mod, size_mod,
}
use xbot_framework.Wire.Bytes.{
  IsBytes, le_bytes, le_value-le_bytes, length-le_bytes, le_bytes-IsBytes,
}
use xbot_framework.Wire.Header.{encode_header}
use xbot_framework.Wire.Frames.{
  Frame, encode_frames, feed, feed_none, feed_more, Outcome, encode_frames-IsBytes,
}
use xbot_framework.Wire.Frames.RoundTrip.{walk_whole, ended_at}
use xbot_framework.Service.State.{Service}
use xbot_framework.Service.Send.{write_at}
use xbot_framework.Service.User.{Prog, run_method, run_prog, done}
use xbot_framework.Service.Lifecycle.{
  load_configuration_defaults, stop_if_running, start_service, on_lifecycle_status_changed,
}
use xbot_framework.Service.Handlers.{
  process_packet, handle_message, handle_configuration_transaction, set_registers, set_one_register,
  whole, configured,
}
use xbot_framework.Service.Packets.{process_packet-encoded}
use xbot_framework.Interface.Base.{Base}
use xbot_framework.Interface.Base.Transactions.{committed_header}
use xbot_framework.Template.Members.{
  Template, Protected, Callbacks, register1_size, user_method, over_private,
}
use xbot_framework.Template.Registers.{
  template_set_register, set_register1, set_register2, template_registers_valid,
}
use xbot_framework.Template.Generated.{template_service}
use xbot_framework.Template.Advertise.{Endpoint}
use xbot_framework.Template.Calls.Remote.{FitsWire}
use xbot_framework.Template.Registers.Sent.{
  register_frames, configure, configure-Sent, length-register_frames, config_header-InRange,
}

-- The service runs with the two values.
abbrev IsConfigured : {V : Type 0} → List ℕ → ℕ → Service (Template V) → Type 0
IsConfigured text n s =
    (s.is_running ≡ true)
    × (s.config_required ≡ false)
    × (take (length text) s.user.protected.register1.value ≡ text)
    × (s.user.protected.register1.length ≡ length text)
    × (s.user.protected.register1.valid ≡ true)
    × (s.user.protected.register2 ≡ record { value = n; valid = true })

-- The members once both registers are stored.
abbrev pub with_registers : {V : Type 0} → List ℕ → ℕ → Template V → Template V
with_registers text n t = record t {
  protected = record (t.protected) {
    register1 = record {
      value = write_at (t.protected).register1.value 0 text;
      length = length text;
      valid = true;
    };
    register2 = record { value = n; valid = true };
  };
}

module _ {V : Type 0} (c : Callbacks V) (get_endpoint : ℕ → Option Endpoint) where
  store_first :
      (text : List ℕ) (t : Template V)
      → length text ≤ register1_size
      → template_set_register c 0 text t
        ≡ done (
          record t {
            protected = record (t.protected) {
              register1 = record {
                value = write_at (t.protected).register1.value 0 text;
                length = length text;
                valid = true;
              };
            };
          },
          true,
        )
  unfolding template_set_register set_register1
  store_first text t short =
      let whole_chars : length text % 1 ≡ 0 = omega arith in
      rw (whole_chars, le→ltb 42 (length text) short) refl

  store_second :
      (n : ℕ) (t : Template V)
      → n < u32_mod
      → template_set_register c 1 (le_bytes 4 n) t
        ≡ done (
          record t {
            protected = record (t.protected) { register2 = record { value = n; valid = true } };
          },
          true,
        )
  unfolding template_set_register set_register2 le_bytes
  store_second n t fits =
      ap
        (λ (v : ℕ). done (
          record t {
            protected = record (t.protected) { register2 = record { value = v; valid = true } };
          },
          true,
        ))
        (le_value-le_bytes 4 n fits)

  -- A method that ends at once.
  run_done :
      {R : Type 0} (m : Template V → Prog (Template V × R)) (s : Service (Template V))
      (t : Template V) (r : R)
      → m s.user ≡ done (t, r)
      → run_method m s ≡ (record s { user = t }, r)
  unfolding run_method run_prog
  run_done m s t r e =
      ap
        (λ (p : Prog (Template V × _)).
          let (s', r') = run_prog p s in (record s' { user = r'.0 }, r'.1))
        e

  feed_registers :
      (text : List ℕ) (n : ℕ) (s : Service (Template V))
      → length text ≤ register1_size
      → n < u32_mod
      → feed (set_one_register (template_service c get_endpoint)) (register_frames text n) s
        ≡ (record s { user = with_registers text n s.user }, true)
  unfolding set_one_register
  feed_registers text n s short fits =
      let impl = template_service c get_endpoint in
      let f1 : Frame = record { target_id = 0; content = text } in
      let f2 : Frame = record { target_id = 1; content = le_bytes 4 n } in
      let first =
        run_done (template_set_register c 0 text) s _ true (store_first text s.user short) in
      let second =
        run_done (template_set_register c 1 (le_bytes 4 n)) _ _ true (store_second n _ fits) in
      feed_more (set_one_register impl) f1 (f2 ∷ []) s _ first
      ∙ (feed_more (set_one_register impl) f2 [] _ _ second
          ∙ feed_none (set_one_register impl) (record s { user = with_registers text n s.user }))

  stored_registers :
      (text : List ℕ) (n : ℕ) (s : Service (Template V))
      → length text ≤ register1_size
      → IsBytes text
      → n < u32_mod
      → set_registers (template_service c get_endpoint) (encode_frames (register_frames text n)) s
        ≡ (record s { user = with_registers text n s.user }, true)
  unfolding set_registers encode_frames
  stored_registers text n s short bytes fits =
      let impl = template_service c get_endpoint in
      let fs = register_frames text n in
      let f1 : Frame = record { target_id = 0; content = text } in
      let f2 : Frame = record { target_id = 1; content = le_bytes 4 n } in
      let size = length-register_frames text n in
      ap (λ (r : Service (Template V) × Outcome). (r.0, whole impl (length (encode_frames fs)) r.1))
        (walk_whole size_mod (set_one_register impl) fs s (omega (arith, size))
            (encode_frames-IsBytes fs (bytes, (le_bytes-IsBytes 4 n, tt)))
            (
              record { id_fits = omega arith; size_fits = omega arith },
              (
                record { id_fits = omega arith; size_fits = omega (arith, length-le_bytes 4 n) },
                tt,
              ),
            )
          ∙ ap (ended_at (length (encode_frames fs))) (feed_registers text n s short fits))
      ∙ ap (λ (b : Bool). (record s { user = with_registers text n s.user }, b))
          (==_refl (length (encode_frames fs)))

  -- The packet of the transaction makes the service store both registers and start.
  configured_by_packet :
      (text : List ℕ) (n : ℕ) (b : Base) (s : Service (Template V))
      → length text ≤ register1_size
      → IsBytes text
      → n < u32_mod
      → FitsWire b
      → let impl = template_service c get_endpoint in
        let loaded = load_configuration_defaults impl (stop_if_running impl s) in
        process_packet impl
          (encode_header (committed_header true (length (encode_frames (register_frames text n))) b)
            ++ encode_frames (register_frames text n))
          s
        ≡ configured impl
            (start_service impl (record loaded { user = with_registers text n loaded.user }))
  unfolding handle_message handle_configuration_transaction template_registers_valid
  configured_by_packet text n b s short bytes fits wire =
      let impl = template_service c get_endpoint in
      let fs = register_frames text n in
      let loaded = load_configuration_defaults impl (stop_if_running impl s) in
      process_packet-encoded impl (committed_header true (length (encode_frames fs)) b)
        (encode_frames fs) s
        (config_header-InRange (length (encode_frames fs)) b
          (omega (arith, length-register_frames text n)) wire)
        refl
      ∙ ap
          (λ (r : Service (Template V) × Bool).
            if r.1 && template_registers_valid r.0.user
            then configured impl (start_service impl r.0)
            else r.0)
          (stored_registers text n loaded short bytes fits)

  -- A user whose OnStart is content: an interface with its service discovered and no transaction open that sets
  -- Register1 to at most 42 characters and Register2 to a number, in one configuration transaction, sends one
  -- packet; the service that gets it, in whatever state it is, ends up running and requires no configuration,
  -- with both values in its registers, marked as valid.
  pub configure-running :
      ((p : Protected V) → c.on_start p ≡ done (p, true))
      → (text : List ℕ) (n : ℕ) (b : Base) (s : Service (Template V)) → length text ≤ register1_size
      → IsBytes text
      → n < u32_mod
      → FitsWire b
      → b.transaction_started ≡ false
      → b.service_discovered ≡ true
      → b.io_sends ≡ true
      → (packet : List ℕ) × ((configure text n b).0.sent ≡ packet ∷ b.sent)
        × (let s' = process_packet (template_service c get_endpoint) packet s in
            (s'.is_running ≡ true)
            × (s'.config_required ≡ false)
            × (take (length text) s'.user.protected.register1.value ≡ text)
            × (s'.user.protected.register1.length ≡ length text)
            × (s'.user.protected.register1.valid ≡ true)
            × (s'.user.protected.register2 ≡ record { value = n; valid = true }))
  unfolding start_service on_lifecycle_status_changed write_at user_method over_private
  configure-running ready text n b s short bytes fits wire outside discovered sends =
      let impl = template_service c get_endpoint in
      let fs = register_frames text n in
      let loaded = load_configuration_defaults impl (stop_if_running impl s) in
      let stored = record loaded { user = with_registers text n loaded.user } in
      (
        encode_header (committed_header true (length (encode_frames fs)) b) ++ encode_frames fs,
        (configure-Sent text n b outside discovered sends).2,
        subst (IsConfigured text n)
            (sym (
              configured_by_packet text n b s short bytes fits wire
              ∙ ap
                  (λ (r : Service (Template V) × Bool). configured impl (
                    if r.1
                    then (on_lifecycle_status_changed (record (r.0) { is_running = true }), true)
                    else (r.0, false)))
                  (run_done (user_method c.on_start) stored stored.user true
                    (ap (over_private stored.user) (ready stored.user.protected)))))
            (refl, refl, take-append text _ (length text) refl, refl, refl, refl),
      )
