-- ===== src/Interface/Base/Transactions.antt =====
-- ServiceInterfaceBase.cpp: what a transaction of an interface puts on the wire.
use xbot_framework.Prelude.{
  ℕ, ◌≡◌, refl, ap, sym, subst, ◌∙◌, List, [], ◌∷◌, ◌++◌, Bool, true, false, true≢false, not,
  if◌then◌else◌, if-keeps, length, append_assoc, append-nil,
}
use xbot_framework.Wire.Header.{Header, transaction, encode_header}
use xbot_framework.Wire.Frames.{Frame, encode_frame, encode_frames, feed, feed_none, feed_more}
use xbot_framework.Interface.Base.{
  Base, base_start_transaction, base_send_data, base_commit_transaction, send_buffer,
  fill_base_header, same_kind,
}

same_kind_refl : (b : Bool) → same_kind b b ≡ true
same_kind_refl true = refl
same_kind_refl false = refl

-- The data of a transaction of a kind, one call of SendData each.
abbrev pub put_data : Bool → ℕ → List ℕ → Base → Base × Bool
put_data is_configuration target_id content s = base_send_data target_id content is_configuration s

pub put-appended :
    (f : Frame) (s : Base)
    → s.service_discovered ≡ true
    → s.transaction_started ≡ true
    → put_data s.is_configuration_transaction f.target_id f.content s
      ≡ (record s { buffer = s.buffer ++ encode_frame f }, true)
unfolding base_send_data encode_frame
put-appended f s discovered started =
    if-keeps P (not s.service_discovered) (s, false) _
      (λ e. absurd (true≢false (sym e ∙ ap not discovered)))
      (λ _.
        if-keeps P s.transaction_started _ _
          (λ _.
            if-keeps P (same_kind s.is_configuration_transaction s.is_configuration_transaction) _
              (s, false) (λ _. refl)
              (λ e. absurd (true≢false (sym (same_kind_refl s.is_configuration_transaction) ∙ e))))
          (λ e. absurd (true≢false (sym started ∙ e))))
  where
    P : Base × Bool → Type 0
    P r = r ≡ (record s { buffer = s.buffer ++ encode_frame f }, true)

feed-appended :
    (fs : List Frame) (s : Base)
    → s.service_discovered ≡ true
    → s.transaction_started ≡ true
    → feed (put_data s.is_configuration_transaction) fs s
      ≡ (record s { buffer = s.buffer ++ encode_frames fs }, true)
unfolding encode_frames
feed-appended [] s discovered started =
    feed_none (put_data s.is_configuration_transaction) s
    ∙ ap (λ (b : List ℕ). (record s { buffer = b }, true)) (sym (append-nil s.buffer))
feed-appended (f ∷ fs) s discovered started =
    feed_more (put_data s.is_configuration_transaction) f fs s
      (record s { buffer = s.buffer ++ encode_frame f }) (put-appended f s discovered started)
    ∙ (feed-appended fs (record s { buffer = s.buffer ++ encode_frame f }) discovered started
        ∙ ap (λ (b : List ℕ). (record s { buffer = b }, true))
            (append_assoc s.buffer (encode_frame f) (encode_frames fs)))

abbrev pub opened : Bool → Base → Base
opened is_configuration s =
    let h = (fill_base_header s).header in
    record s {
      transaction_started = true;
      is_configuration_transaction = is_configuration;
      header = h;
      buffer_header = h;
      buffer = [];
    }

pub start-opened :
    (is_configuration : Bool) (s : Base)
    → s.transaction_started ≡ false
    → base_start_transaction is_configuration s ≡ (opened is_configuration s, true)
unfolding base_start_transaction
start-opened is_configuration s outside =
    if-keeps (λ (r : Base × Bool). r ≡ (opened is_configuration s, true)) s.transaction_started
      (s, false) _ (λ e. absurd (true≢false (sym e ∙ outside))) (λ _. refl)

-- The header that such a commit sends.
abbrev pub committed_header : Bool → ℕ → Base → Header
committed_header is_configuration size s = record ((fill_base_header s).header) {
  message_type = transaction;
  arg1 = if is_configuration then 1 else 0;
  payload_size = size;
}

abbrev pub Sent : Bool → List Frame → Base → Base × Bool → Type 0
Sent is_configuration fs s r =
    (r.1 ≡ true)
    × (r.0.transaction_started ≡ false)
    × (r.0.sent
        ≡ (encode_header (committed_header is_configuration (length (encode_frames fs)) s)
            ++ encode_frames fs)
          ∷ s.sent)

pub commit-Sent :
    (is_configuration : Bool) (fs : List Frame) (s : Base)
    → s.service_discovered ≡ true
    → s.io_sends ≡ true
    → Sent is_configuration fs s
        (base_commit_transaction (record (opened is_configuration s) { buffer = encode_frames fs }))
unfolding base_commit_transaction send_buffer
commit-Sent is_configuration fs s discovered sends =
    if-keeps (Sent is_configuration fs s) (not s.service_discovered) _ _
      (λ e. absurd (true≢false (sym e ∙ ap not discovered)))
      (λ _.
        if-keeps (Sent is_configuration fs s) s.io_sends _ _ (λ _. (refl, refl, refl))
          (λ e. absurd (true≢false (sym sends ∙ e))))

-- A transaction of an interface whose service is discovered, with any pieces of data of the transaction's kind
-- and a ServiceIO that sends: every call succeeds, one packet goes out, of the header with the transaction's
-- kind and size and of the pieces in their order, and no transaction is left open.
pub base_transaction-sent :
    (is_configuration : Bool) (fs : List Frame) (s : Base)
    → s.transaction_started ≡ false
    → s.service_discovered ≡ true
    → s.io_sends ≡ true
    → let (filled, accepted) =
        feed (put_data is_configuration) fs (base_start_transaction is_configuration s).0 in
      let (s', done) = base_commit_transaction filled in
      (accepted ≡ true)
      × (done ≡ true)
      × (s'.transaction_started ≡ false)
      × (s'.sent
          ≡ (encode_header (committed_header is_configuration (length (encode_frames fs)) s)
              ++ encode_frames fs)
            ∷ s.sent)
base_transaction-sent is_configuration fs s outside discovered sends =
    let done = commit-Sent is_configuration fs s discovered sends in
    subst
      (λ (o : Base × Bool).
        let r = feed (put_data is_configuration) fs o.0 in
        (r.1 ≡ true)
        × ((base_commit_transaction r.0).1 ≡ true)
        × ((base_commit_transaction r.0).0.transaction_started ≡ false)
        × ((base_commit_transaction r.0).0.sent
            ≡ (encode_header (committed_header is_configuration (length (encode_frames fs)) s)
                ++ encode_frames fs)
              ∷ s.sent))
      (sym (start-opened is_configuration s outside))
      (subst
        (λ (r : Base × Bool).
          (r.1 ≡ true)
          × ((base_commit_transaction r.0).1 ≡ true)
          × ((base_commit_transaction r.0).0.transaction_started ≡ false)
          × ((base_commit_transaction r.0).0.sent
              ≡ (encode_header (committed_header is_configuration (length (encode_frames fs)) s)
                  ++ encode_frames fs)
                ∷ s.sent))
        (sym (feed-appended fs (opened is_configuration s) discovered refl))
        (refl, done.0, done.1, done.2))
