-- ===== src/Interface/Io/Packets.antt =====
-- ServiceIO.cpp: what `RunIo` does with a packet of a header and a payload.
use xbot_framework.Prelude.{
  ℕ, ◌+◌, ◌-◌, ◌≡◌, ◌==◌, refl, ap, sym, ◌∙◌, List, [], ◌∷◌, ◌++◌, Bool, true, false, arith, le→ltb,
  if◌then◌else◌, length, drop, length-append, drop-append, append-nil, ==_refl, foldl,
}
use xbot_framework.Wire.Header.{
  Header, InRange, header_size, encode_header, length-encode_header, decode-encode_header,
  rpc_response,
}
use xbot_framework.Interface.Io.State.{Io, rpc_response_received, callbacks_of, emit}
use xbot_framework.Interface.Io.Messages.{
  io_receive, io_handle_message, handle_rpc_response, serves,
}

module _ {D : Type 0} where
  -- The part of `RunIo` behind the decoding of the header.
  abbrev with_header : ℕ → List ℕ → Io D → Header → Io D
  with_header now packet s h =
      if h.payload_size == length packet - header_size
      then io_handle_message now h.message_type h (drop header_size packet) s
      else s

  received :
      (now : ℕ) (h : Header) (payload : List ℕ) (s : Io D)
      → InRange h
      → io_receive now (encode_header h ++ payload) s ≡ (
          if h.payload_size == length payload
          then io_handle_message now h.message_type h payload s
          else s)
  unfolding io_receive
  received now h payload s ok =
      let packet = encode_header h ++ payload in
      let total : length packet ≡ 24 + length payload =
        omega (arith, length-append (encode_header h) payload, length-encode_header h) in
      let rest : length packet - 24 ≡ length payload = omega (arith, total) in
      let body : drop 24 packet ≡ payload =
        drop-append (encode_header h) payload 24 (omega (arith, length-encode_header h)) in
      rw (le→ltb (length packet) 24 (omega arith))
        (ap (with_header now packet s) (decode-encode_header h payload ok) ∙ rw (rest, body) refl)

  pub io_receive-encoded :
      (now : ℕ) (h : Header) (payload : List ℕ) (s : Io D)
      → InRange h
      → h.payload_size ≡ length payload
      → io_receive now (encode_header h ++ payload) s
        ≡ io_handle_message now h.message_type h payload s
  io_receive-encoded now h payload s ok size =
      received now h payload s ok
      ∙ ap (λ (b : Bool). if b then io_handle_message now h.message_type h payload s else s)
          (ap (λ (n : ℕ). n == length payload) size ∙ ==_refl (length payload))

  -- A header alone that declares a payload is dropped.
  pub io_receive-cut :
      (now : ℕ) (h : Header) (s : Io D)
      → InRange h
      → (h.payload_size == 0) ≡ false
      → io_receive now (encode_header h) s ≡ s
  io_receive-cut now h s ok some_payload =
      ap (λ (p : List ℕ). io_receive now p s) (sym (append-nil (encode_header h)))
      ∙ (received now h [] s ok
          ∙ ap (λ (b : Bool). if b then io_handle_message now h.message_type h [] s else s)
              some_payload)

  -- The response of a service that the interface has claimed, with one callback.
  pub io_receive-response :
      (now : ℕ) (h : Header) (payload : List ℕ) (c : ℕ) (s : Io D)
      → InRange h
      → h.payload_size ≡ length payload
      → h.message_type ≡ rpc_response
      → serves h.service_id s ≡ true
      → callbacks_of h.service_id s ≡ c ∷ []
      → (io_receive now (encode_header h ++ payload) s).events
        ≡ rpc_response_received c h.service_id h.arg2 h.arg1 payload ∷ s.events
  unfolding io_handle_message handle_rpc_response
  io_receive-response now h payload c s ok size kind served_there one =
      ap (λ (t : Io D). t.events) (io_receive-encoded now h payload s ok size)
      ∙ (ap (λ (m : _). (io_handle_message now m h payload s).events) kind
          ∙ (ap (λ (b : Bool). (if b then told (callbacks_of h.service_id s) else s).events)
                served_there
              ∙ ap (λ (cs : List ℕ). (told cs).events) one))
    where
      told : List ℕ → Io D
      told cs =
          foldl
            (λ (t : Io D) (d : ℕ).
              emit (rpc_response_received d h.service_id h.arg2 h.arg1 payload) t)
            s cs
