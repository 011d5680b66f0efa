-- ===== src/Service/Sending/Steps.antt =====
-- Service.cpp: the steps of a transaction of a service, from StartTransaction to CommitTransaction.
use xbot_framework.Prelude.{
  ℕ, ◌+◌, ◌≤◌, ◌≡◌, refl, ap, ap₂, sym, subst, ◌∙◌, List, [], ◌∷◌, ◌++◌, Bool, true, false, arith,
  ◌==◌, le→leb, if◌then◌else◌, length, take, drop, length-append, length-take, length-drop,
  take-append, append_assoc, append-nil,
}
use xbot_framework.Wire.Header.{Header, transaction, encode_header}
use xbot_framework.Wire.Frames.{
  Frame, feed_none, feed_more, encode_frame, encode_frames, feed, length-encode_frame,
  descriptor_size,
}
use xbot_framework.Portable.Packet.{Datagram}
use xbot_framework.Service.State.{Service, is_claimed, scratch_size}
use xbot_framework.Service.Send.{
  fill_header, write_at, send_data, append_to_transaction, start_transaction, commit_transaction,
  send_with, transmit, packet_of,
}
use xbot_framework.Service.Sending.{packet_of_fit}

take_written :
    (buffer bytes : List ℕ) (at n : ℕ)
    → at + length bytes ≤ length buffer
    → n ≡ at + length bytes
    → take n (write_at buffer at bytes) ≡ take at buffer ++ bytes
unfolding write_at
take_written buffer bytes at n room e =
    subst (λ (t : List ℕ). take n t ≡ take at buffer ++ bytes)
      (append_assoc (take at buffer) bytes (drop (at + length bytes) buffer))
      (take-append (take at buffer ++ bytes) (drop (at + length bytes) buffer) n
        (omega (arith, length-append (take at buffer) bytes, length-take at buffer)))

length-write_at :
    (buffer bytes : List ℕ) (at : ℕ)
    → at + length bytes ≤ length buffer
    → length (write_at buffer at bytes) ≡ length buffer
unfolding write_at
length-write_at buffer bytes at room = omega (
  arith,
  length-append (take at buffer) (bytes ++ drop (at + length bytes) buffer),
  length-append bytes (drop (at + length bytes) buffer),
  length-take at buffer,
  length-drop (at + length bytes) buffer,
)

-- The bytes of the datagram that was sent last.
abbrev pub newest : List Datagram → List ℕ
newest [] = []
newest (d ∷ ds) = d.bytes

module _ {U : Type 0} where
  -- The service is the given one but for its scratch buffer, which is filled with the given bytes.
  pub record Holds (bytes : List ℕ) (s t : Service U) : Type 0 where
    pub same : t ≡ record s {
      scratch_buffer = t.scratch_buffer;
      scratch_buffer_fill = t.scratch_buffer_fill;
    }
    pub whole : length t.scratch_buffer ≡ scratch_size
    pub fill : t.scratch_buffer_fill ≡ length bytes
    pub written : take t.scratch_buffer_fill t.scratch_buffer ≡ bytes

  append-Holds :
      (bytes : List ℕ) (f : Frame) (s t : Service U)
      → Holds bytes s t
      → length bytes + length (encode_frame f) ≤ scratch_size
      → (t' : Service U) × (append_to_transaction f.target_id f.content t ≡ (t', true))
        × Holds (bytes ++ encode_frame f) s t'
  unfolding append_to_transaction encode_frame
  append-Holds bytes f s t v room =
      let n = t.scratch_buffer_fill + (length f.content + descriptor_size) in
      let buffer = write_at t.scratch_buffer t.scratch_buffer_fill (encode_frame f) in
      let t' = record t { scratch_buffer = buffer; scratch_buffer_fill = n } in
      let fits : t.scratch_buffer_fill + length f.content + descriptor_size ≤ scratch_size =
        omega (arith, length-encode_frame f, v.fill) in
      let inside : t.scratch_buffer_fill + length (encode_frame f) ≤ length t.scratch_buffer =
        omega (arith, length-encode_frame f, v.fill, v.whole) in
      (
        t',
        ap (λ (b : Bool). if b then (t', true) else (t, false)) (le→leb _ scratch_size fits),
        record {
          same =
              ap (λ (r : Service U). record r { scratch_buffer = buffer; scratch_buffer_fill = n })
                v.same;
          whole =
              length-write_at t.scratch_buffer (encode_frame f) t.scratch_buffer_fill inside
              ∙ v.whole;
          fill = omega (arith, length-append bytes (encode_frame f), length-encode_frame f, v.fill);
          written =
              take_written t.scratch_buffer (encode_frame f) t.scratch_buffer_fill n inside
                (omega (arith, length-encode_frame f))
              ∙ ap (λ (b : List ℕ). b ++ encode_frame f) v.written;
        },
      )

  send_data_inside :
      (target_id : ℕ) (content : List ℕ) (t : Service U)
      → t.transaction_started ≡ true
      → send_data target_id content t ≡ append_to_transaction target_id content t
  unfolding send_data
  send_data_inside target_id content t started = rw started refl

  pub feed-Holds :
      (fs : List Frame) (bytes : List ℕ) (s t : Service U)
      → s.transaction_started ≡ true
      → Holds bytes s t
      → length bytes + length (encode_frames fs) ≤ scratch_size
      → (t' : Service U) × (feed send_data fs t ≡ (t', true))
        × Holds (bytes ++ encode_frames fs) s t'
  unfolding encode_frames
  feed-Holds [] bytes s t started v room =
      (t, feed_none send_data t, subst (λ (b : List ℕ). Holds b s t) (sym (append-nil bytes)) v)
  feed-Holds (f ∷ fs) bytes s t started v room =
      let (t', appended, v') =
        append-Holds bytes f s t v
          (omega (arith, length-append (encode_frame f) (encode_frames fs))) in
      let (t'', fed, v'') = feed-Holds fs (bytes ++ encode_frame f) s t' started v' (
        omega (
          arith,
          length-append (encode_frame f) (encode_frames fs),
          length-append bytes (encode_frame f),
        )) in
      let sent : send_data f.target_id f.content t ≡ (t', true) =
        send_data_inside f.target_id f.content t
          (ap (λ (r : Service U). r.transaction_started) v.same ∙ started)
        ∙ appended in
      (
        t'',
        feed_more send_data f fs t t' sent ∙ fed,
        subst (λ (b : List ℕ). Holds b s t'')
            (append_assoc bytes (encode_frame f) (encode_frames fs)) v'',
      )

  -- The service with a transaction that `StartTransaction` has opened.
  abbrev pub opened : ℕ → Service U → Service U
  opened timestamp s =
      let h = (fill_header s).header in
      record s {
        locks = s.locks + 1;
        header = if timestamp == 0 then h else record h { timestamp = timestamp };
        scratch_buffer_fill = 0;
        transaction_started = true;
      }

  abbrev header_of : ℕ → Service U → Header
  header_of timestamp s = (opened timestamp s).header

  pub start-opened :
      (timestamp : ℕ) (s : Service U)
      → s.transaction_started ≡ false
      → start_transaction timestamp s ≡ (opened timestamp s, true)
  unfolding start_transaction
  start-opened timestamp s outside = rw outside refl

  -- What a commit leaves of a service `s` and of a header.
  pub record Committed (s : Service U) (h : Header) (payload : List ℕ) (s' : Service U)
      : Type 0 where
    pub closed : s'.transaction_started ≡ false
    pub unlocked : s'.locks ≡ s.locks
    pub sent_one :
        s'.sent
        ≡ record {
          ip = s.target_ip;
          port = s.target_port;
          bytes =
              encode_header (record h { message_type = transaction; payload_size = length payload })
              ++ payload;
        }
          ∷ s.sent

  pub commit-Committed :
      (s : Service U) (timestamp : ℕ) (buffer : List ℕ) (n : ℕ) (payload : List ℕ)
      → is_claimed s ≡ true
      → n ≡ length payload
      → take n buffer ≡ payload
      → length payload ≤ scratch_size
      → let r =
          commit_transaction
            (record (opened timestamp s) { scratch_buffer = buffer; scratch_buffer_fill = n }) in
        (r.1 ≡ true) × Committed s (opened timestamp s).header payload r.0
  unfolding commit_transaction send_with transmit fill_header
  commit-Committed s timestamp buffer n payload claimed size written room = rw claimed (
    refl,
    record {
      closed = refl;
      unlocked = omega arith;
      sent_one =
          ap (λ (b : List ℕ). record { ip = s.target_ip; port = s.target_port; bytes = b } ∷ s.sent)
            (ap₂
                (λ (k : ℕ) (p : List ℕ).
                  packet_of
                    (record (header_of timestamp s) {
                      message_type = transaction;
                      payload_size = k;
                    })
                    p)
                size written
              ∙ packet_of_fit
                  (record (header_of timestamp s) {
                    message_type = transaction;
                    payload_size = length payload;
                  })
                  payload room);
    },
  )
