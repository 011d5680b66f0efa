-- ===== src/Template/Registers/Sent.antt =====
-- The configuration transaction that the generated interface sends.
use xbot_framework.Prelude.{
  ℕ, ◌+◌, ◌*◌, ◌<◌, ◌≡◌, refl, ap, sym, subst, ◌∙◌, List, [], ◌∷◌, ◌++◌, Bool, true, false, arith,
  length, take, length-append, take_all, append-nil, u32_mod,
}
use xbot_framework.Wire.Bytes.{le_bytes, length-le_bytes}
use xbot_framework.Wire.Header.{InRange}
use xbot_framework.Wire.Frames.{Frame, encode_frame, encode_frames, length-encode_frame}
use xbot_framework.Service.Packets.{next_header-InRange}
use xbot_framework.Interface.Base.{
  Base, base_start_transaction, base_commit_transaction, fill_base_header,
}
use xbot_framework.Interface.Base.Transactions.{
  put_data, put-appended, opened, start-opened, Sent, commit-Sent, committed_header,
}
use xbot_framework.Template.Client.{set_register_register1, set_register_register2}
use xbot_framework.Template.Calls.Remote.{FitsWire}

-- The two mandatory registers, as pieces of a transaction.
abbrev pub register_frames : List ℕ → ℕ → List Frame
register_frames text n =
    record { target_id = 0; content = text } ∷ record { target_id = 1; content = le_bytes 4 n } ∷ []

-- The calls of the interface.
unfoldable pub configure : List ℕ → ℕ → Base → Base × Bool
configure text n b =
    base_commit_transaction
      (set_register_register2 n
        (set_register_register1 text (length text) (base_start_transaction true b).0).0).0

pub configure-Sent :
    (text : List ℕ) (n : ℕ) (b : Base)
    → b.transaction_started ≡ false
    → b.service_discovered ≡ true
    → b.io_sends ≡ true
    → Sent true (register_frames text n) b (configure text n b)
unfolding configure set_register_register1 set_register_register2 encode_frames
configure-Sent text n b outside discovered sends =
    let f1 : Frame = record { target_id = 0; content = text } in
    let f2 : Frame = record { target_id = 1; content = le_bytes 4 n } in
    subst (λ (s : Base × Bool). Sent true (register_frames text n) b (base_commit_transaction s.0))
      (sym (
        ap
          (λ (r : Base × Bool).
            put_data true 1 (le_bytes 4 n) (put_data true 0 (take (length text * 1) text) r.0).0)
          (start-opened true b outside)
        ∙ ap (λ (t : List ℕ). put_data true 1 (le_bytes 4 n) (put_data true 0 t (opened true b)).0)
            (take_all text (length text * 1) (omega arith))
        ∙ ap (λ (r : Base × Bool). put_data true 1 (le_bytes 4 n) r.0)
            (put-appended f1 (opened true b) discovered refl)
        ∙ put-appended f2 (record (opened true b) { buffer = encode_frame f1 }) discovered refl
        ∙ ap (λ (t : List ℕ). (record (opened true b) { buffer = encode_frame f1 ++ t }, true))
            (sym (append-nil (encode_frame f2)))))
      (commit-Sent true (register_frames text n) b discovered sends)

pub length-register_frames :
    (text : List ℕ) (n : ℕ) → length (encode_frames (register_frames text n)) ≡ length text + 20
unfolding encode_frames
length-register_frames text n =
    let f1 : Frame = record { target_id = 0; content = text } in
    let f2 : Frame = record { target_id = 1; content = le_bytes 4 n } in
    omega (
      arith,
      length-append (encode_frame f1) (encode_frame f2 ++ []),
      length-append (encode_frame f2) [],
      length-encode_frame f1,
      length-encode_frame f2,
      length-le_bytes 4 n,
    )

pub config_header-InRange :
    (size : ℕ) (b : Base) → size < u32_mod → FitsWire b → InRange (committed_header true size b)
unfolding fill_base_header
config_header-InRange size b short fits =
    let ok =
      next_header-InRange b.service_id b.time_micros b.header fits.id_fits fits.time_fits
        fits.header_fits in
    record {
      version_fits = ok.version_fits;
      type_fits = tt;
      flags_fit = ok.flags_fit;
      reserved1_fits = ok.reserved1_fits;
      id_fits = ok.id_fits;
      arg1_fits = omega arith;
      reserved2_fits = ok.reserved2_fits;
      arg2_fits = ok.arg2_fits;
      sequence_fits = ok.sequence_fits;
      timestamp_fits = ok.timestamp_fits;
      payload_fits = short;
    }
