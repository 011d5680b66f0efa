-- ===== src/Service/Packets.antt =====
-- Service.cpp: what a service does with a packet of a header and the payload that the header declares.
use Prim.Native.Nat.{bit_and}
use xbot_framework.Prelude.{
  ℕ, zero, suc, ◌<◌, ◌^◌, Bool, true, ◌&&◌, ◌==◌, ltb→lt, if-keeps, add16, u16_mod, ◌+◌, ◌≡◌, refl,
  ap, ◌∙◌, List, ◌++◌, arith, ltb, le→ltb, if◌then◌else◌, length, take, drop, length-append,
  drop-append, take_all,
}
use xbot_framework.Wire.Header.{
  Header, InRange, header_size, encode_header, length-encode_header, decode-encode_header,
}
use xbot_framework.Service.State.{Service}
use xbot_framework.Service.Send.{next_header}
use xbot_framework.Service.User.{Impl}
use xbot_framework.Service.Handlers.{process_packet, handle_message}

-- The flags stay a byte when the reboot bit is cleared: every byte is tried.
all_below : ℕ → (ℕ → Bool) → Bool
all_below zero p = true
all_below (suc n) p = p n && all_below n p

all_below-true : (n : ℕ) (p : ℕ → Bool) (x : ℕ) → all_below n p ≡ true → x < n → p x ≡ true
unfolding all_below
all_below-true zero p x h lt = absurd (omega arith)
all_below-true (suc n) p x h lt = ground (arith, all_below-true n p x)

cleared_table : all_below 256 (λ x. ltb (bit_and x 0xFE) 256) ≡ true
unfolding all_below
cleared_table = refl

cleared-lt : (x : ℕ) → x < 256 → bit_and x 0xFE < 256
cleared-lt x h = ltb→lt _ 256 (all_below-true 256 _ x cleared_table h)

pub next_header-InRange :
    (service_id time_micros : ℕ) (h : Header)
    → service_id < u16_mod
    → time_micros < 2 ^ 64
    → InRange h
    → InRange (next_header service_id time_micros h)
unfolding next_header
next_header-InRange service_id time_micros h id time ok = record {
  version_fits = omega arith;
  type_fits = tt;
  flags_fit =
      if-keeps (λ (n : ℕ). n < 256) (add16 h.sequence_no 1 == 0) _ h.flags
        (λ _. cleared-lt h.flags ok.flags_fit) (λ _. ok.flags_fit);
  reserved1_fits = ok.reserved1_fits;
  id_fits = id;
  arg1_fits = omega arith;
  reserved2_fits = ok.reserved2_fits;
  arg2_fits = omega arith;
  sequence_fits = omega arith;
  timestamp_fits = time;
  payload_fits = omega arith;
}

module _ {U : Type 0} (impl : Impl U) where
  -- The part of `process_packet` behind the decoding of the header.
  abbrev with_header : List ℕ → Service U → Header → Service U
  with_header packet s h =
      if ltb (length packet) (header_size + h.payload_size)
      then s
      else handle_message impl h.message_type h (take h.payload_size (drop header_size packet)) s

  pub process_packet-encoded :
      (h : Header) (payload : List ℕ) (s : Service U)
      → InRange h
      → h.payload_size ≡ length payload
      → process_packet impl (encode_header h ++ payload) s
        ≡ handle_message impl h.message_type h payload s
  unfolding process_packet
  process_packet-encoded h payload s ok size =
      let packet = encode_header h ++ payload in
      let total : length packet ≡ 24 + length payload =
        omega (arith, length-append (encode_header h) payload, length-encode_header h) in
      let body : drop 24 packet ≡ payload =
        drop-append (encode_header h) payload 24 (omega (arith, length-encode_header h)) in
      rw (le→ltb (length packet) 24 (omega arith)) (
        ap (with_header packet s) (decode-encode_header h payload ok)
        ∙ rw (le→ltb (length packet) (24 + h.payload_size) (omega arith), body)
            (ap (λ (p : List ℕ). handle_message impl h.message_type h p s)
              (take_all payload h.payload_size (omega arith))))
