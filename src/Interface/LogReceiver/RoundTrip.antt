-- ===== src/Interface/LogReceiver/RoundTrip.antt =====
-- A line from the logger of a service to the output of the interface.
use Prim.Native.Nat.{min}
use xbot_framework.Prelude.{
  ℕ, ◌⊎◌, inl, inr, ◌+◌, ◌-◌, ◌%◌, ◌<◌, ◌≤◌, ◌≡◌, refl, ap, ◌∙◌, List, ◌∷◌, ◌++◌, Option, none,
  some, Bool, false, not, ◌&&◌, ◌==◌, ltb, le→ltb, lt→ltb, ==_refl, if◌then◌else◌, arith, length,
  take, drop, add16, length-append, drop-append, take_all, u16_mod,
}
use xbot_framework.Wire.Header.{
  Header, MessageType, InRange, log, header_size, encode_header, decode-encode_header,
  length-encode_header, to_byte,
}
use xbot_framework.Service.Sending.{packet_of_fit}
use xbot_framework.Service.Logging.{
  Log, max_log_length, remote_log_multicast_address, log_port, log_text, log_length, log_header,
  counted_log, send_log, remote_logger,
}
use xbot_framework.Interface.LogReceiver.{
  LineLevel, trace, debug, info, warn, error, line_level, receive_log,
}

-- The header of a logger whose members fit their widths.
log_header-InRange :
    (trace_level severity size : ℕ) (s : Log)
    → size < max_log_length
    → s.sequence_no < u16_mod
    → InRange s.header
    → InRange (record (log_header trace_level severity s) { payload_size = size })
unfolding log_header
log_header-InRange trace_level severity size s short seq ok = record {
  version_fits = omega arith;
  type_fits = tt;
  flags_fit = omega arith;
  reserved1_fits = ok.reserved1_fits;
  id_fits = ok.id_fits;
  arg1_fits = omega arith;
  reserved2_fits = ok.reserved2_fits;
  arg2_fits = omega arith;
  sequence_fits = seq;
  timestamp_fits = omega arith;
  payload_fits = omega arith;
}

-- What a round does behind the decoding of the header.
abbrev by_size : List ℕ → Header → Option (LineLevel × List ℕ)
by_size packet h =
    if length packet == h.payload_size + header_size
    then some (line_level h.arg1, take h.payload_size (drop header_size packet))
    else none

receive-encoded :
    (h : Header) (text : List ℕ)
    → InRange h
    → h.message_type ≡ log
    → h.payload_size ≡ length text
    → receive_log (encode_header h ++ text) ≡ some (line_level h.arg1, text)
unfolding receive_log to_byte
receive-encoded h text ok kind size =
    let packet = encode_header h ++ text in
    let total : length packet ≡ 24 + length text =
      omega (arith, length-append (encode_header h) text, length-encode_header h) in
    let whole : length packet ≡ h.payload_size + 24 = omega (arith, total, size) in
    let body : drop 24 packet ≡ text =
      drop-append (encode_header h) text 24 (omega (arith, length-encode_header h)) in
    rw (le→ltb (length packet) 24 (omega arith)) (
      ap (λ (k : Header). if not (to_byte k.message_type == 0x7F) then none else by_size packet k)
        (decode-encode_header h text ok)
      ∙ ap (λ (t : MessageType). if not (to_byte t == 0x7F) then none else by_size packet h) kind
      ∙ ap
          (λ (b : Bool).
            if b then some (line_level h.arg1, take h.payload_size (drop 24 packet)) else none)
          (ap (λ (n : ℕ). n == h.payload_size + 24) whole ∙ ==_refl (h.payload_size + 24))
      ∙ ap (λ (t : List ℕ). some (line_level h.arg1, t))
          (ap (take h.payload_size) body ∙ take_all text h.payload_size (omega (arith, size))))

-- The level that the receiver prints for the k-th severity from the trace level.
abbrev pub printed_level : ℕ → LineLevel
printed_level k =
    if k == 0
    then trace
    else if k == 1
    then debug
    else if k == 2
    then info
    else if k == 3
    then warn
    else error

printed_line_level :
    (trace_level k : ℕ)
    → k < 255
    → line_level ((trace_level + k - trace_level + 1) % 256) ≡ printed_level k
unfolding line_level
printed_line_level trace_level k h =
    let e : (trace_level + k - trace_level + 1) % 256 ≡ k + 1 = omega arith in
    ap line_level e ∙ ground arith

-- What `remote_logger` hands to its text, when that is neither empty nor too long.
sent_text :
    (id : Option ℕ) (msg : List ℕ)
    → length (log_text id msg) < max_log_length
    → (log_length id msg ≡ length (log_text id msg))
unfolding log_text log_length
sent_text none msg h = omega arith
sent_text (some id) msg h = refl

-- A message that the logger's level lets through, whose text with the ID before it has between 1 and 254 characters:
-- one packet goes to the multicast address for logs, from which the receiver prints exactly the text, at the
-- level of the same name, or as an error for the severities above a warning; the next sequence number follows.
pub remote_logger-receive_log :
    (trace_level k : ℕ) (id : Option ℕ) (msg : List ℕ) (s : Log)
    → k < 255
    → s.level ≤ trace_level + k
    → 0 < length (log_text id msg)
    → length (log_text id msg) < max_log_length
    → s.sequence_no < u16_mod
    → InRange s.header
    → let s' = remote_logger trace_level (trace_level + k) id msg s in
      (s'.sequence_no ≡ add16 s.sequence_no 1)
      × ((packet : List ℕ) × (s'.sent
            ≡ record { ip = remote_log_multicast_address; port = log_port; bytes = packet }
              ∷ s.sent)
          × (receive_log packet ≡ some (printed_level k, log_text id msg)))
unfolding remote_logger send_log counted_log log_header
remote_logger-receive_log trace_level k id msg s small through some_text short seq ok =
    let text = log_text id msg in
    let h = record (log_header trace_level (trace_level + k) s) { payload_size = length text } in
    let same = sent_text id msg short in
    rw
      (
        le→ltb (trace_level + k) s.level through,
        same,
        lt→ltb 0 (length text) some_text,
        lt→ltb (length text) 255 short,
        take_all text (length text) (omega arith),
      )
      (
        refl,
        (
          encode_header h ++ text,
          ap
              (λ (b : List ℕ).
                record { ip = remote_log_multicast_address; port = log_port; bytes = b } ∷ s.sent)
              (packet_of_fit h text (omega arith)),
          receive-encoded h text
                (log_header-InRange trace_level (trace_level + k) (length text) s short seq ok) refl
                refl
              ∙ ap (λ (l : LineLevel). some (l, text)) (printed_line_level trace_level k small),
        ),
      )

unsendable :
    (id : Option ℕ) (msg : List ℕ)
    → (length (log_text id msg) ≡ 0) ⊎ (max_log_length ≤ length (log_text id msg))
    → (ltb 0 (log_length id msg) && ltb (log_length id msg) max_log_length) ≡ false
unfolding log_text log_length
unsendable none msg (inl e) = let m : min (length msg) 255 ≡ 0 = omega arith in rw m refl
unsendable none msg (inr h) = let m : min (length msg) 255 ≡ 255 = omega arith in rw m refl
unsendable (some id) msg (inl e) = rw e refl
unsendable (some id) msg (inr h) = ground arith

-- A message that is let through, but whose text with the ID before it is empty or has 255 or more characters, is
-- not sent, and still uses up a sequence number: the receiver sees a gap.
pub remote_logger-unsent :
    (trace_level severity : ℕ) (id : Option ℕ) (msg : List ℕ) (s : Log)
    → s.level ≤ severity
    → (length (log_text id msg) ≡ 0) ⊎ (max_log_length ≤ length (log_text id msg))
    → let s' = remote_logger trace_level severity id msg s in
      (s'.sent ≡ s.sent) × (s'.sequence_no ≡ add16 s.sequence_no 1)
unfolding remote_logger counted_log
remote_logger-unsent trace_level severity id msg s through bad =
    rw (le→ltb severity s.level through, unsendable id msg bad) (refl, refl)
