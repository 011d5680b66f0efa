-- ===== src/Service/Sending/Transactions.antt =====
-- Service.cpp: what a transaction of a service puts on the wire, from StartTransaction to CommitTransaction.
use xbot_framework.Prelude.{
  ℕ, suc, ◌≤◌, ◌≡◌, refl, ap, sym, subst, ◌∙◌, List, [], Bool, true, false, arith, length, drop,
  drop-append, size_mod, All,
}
use xbot_framework.Wire.Bytes.{IsBytes}
use xbot_framework.Wire.Header.{transaction, header_size, encode_header, length-encode_header}
use xbot_framework.Wire.Frames.{Frame, IsEncodable, encode_frames, feed, walk}
use xbot_framework.Wire.Frames.RoundTrip.{walk_whole, ended_at}
use xbot_framework.Portable.Packet.{Datagram}
use xbot_framework.Service.State.{Service, is_claimed, scratch_size}
use xbot_framework.Service.Send.{send_data, start_transaction, commit_transaction}
use xbot_framework.Service.Sending.Steps.{
  newest, Committed, feed-Holds, opened, start-opened, commit-Committed,
}

module _ {U : Type 0} where
  -- The data of a transaction, from its start to its commit.
  abbrev pub send_transaction : ℕ → List Frame → Service U → (Service U × Bool) × Bool
  send_transaction timestamp fs s =
      let (filled, accepted) = feed send_data fs (start_transaction timestamp s).0 in
      (commit_transaction filled, accepted)

  -- A claimed service with no transaction that sends pieces of data in one, of 1448 bytes at most with their
  -- descriptors: every call succeeds, one packet goes to the claimer, of the header that StartTransaction
  -- filled, with the type and the size, and of the pieces in their order; no transaction is left open, and
  -- the mutex is held as often as before.
  pub send_transaction-Committed :
      (timestamp : ℕ) (fs : List Frame) (s : Service U)
      → s.transaction_started ≡ false
      → is_claimed s ≡ true
      → length s.scratch_buffer ≡ scratch_size
      → length (encode_frames fs) ≤ scratch_size
      → let ((s', done), accepted) = send_transaction timestamp fs s in
        (accepted ≡ true)
        × (done ≡ true)
        × Committed s (start_transaction timestamp s).0.header (encode_frames fs) s'
  send_transaction-Committed timestamp fs s outside claimed whole room =
      let (t, fed, v) =
        feed-Holds fs [] (opened timestamp s) (opened timestamp s) refl
          (record { same = refl; whole = whole; fill = refl; written = refl }) (omega arith) in
      let done =
        commit-Committed s timestamp t.scratch_buffer t.scratch_buffer_fill (encode_frames fs)
          claimed v.fill v.written room in
      let after : ((commit_transaction t).1 ≡ true)
          × Committed s (opened timestamp s).header (encode_frames fs) (commit_transaction t).0 =
        subst
          (λ (u : Service U).
            ((commit_transaction u).1 ≡ true)
            × Committed s (opened timestamp s).header (encode_frames fs) (commit_transaction u).0)
          (sym v.same) done in
      subst
        (λ (o : Service U × Bool).
          let r = feed send_data fs o.0 in
          (r.1 ≡ true)
          × ((commit_transaction r.0).1 ≡ true)
          × Committed s (o.0.header) (encode_frames fs) (commit_transaction r.0).0)
        (sym (start-opened timestamp s outside))
        (subst
          (λ (r : Service U × Bool).
            (r.1 ≡ true)
            × ((commit_transaction r.0).1 ≡ true)
            × Committed s (opened timestamp s).header (encode_frames fs) (commit_transaction r.0).0)
          (sym fed) (refl, after.0, after.1))

  -- The payload that such a commit sends, read by the loop over a transaction with any body, gives the body
  -- exactly the pieces of data of the `SendData` calls, in their order, and the loop ends at the payload's
  -- end or where the body asks to stop: for pieces of bytes whose targets fit 16 bits.
  pub send_transaction-walk :
      {S : Type 0} (body : ℕ → List ℕ → S → S × Bool) (receiver : S) (timestamp : ℕ)
      (fs : List Frame) (s : Service U)
      → s.transaction_started ≡ false
      → is_claimed s ≡ true
      → length s.scratch_buffer ≡ scratch_size
      → length (encode_frames fs) ≤ scratch_size
      → IsBytes (encode_frames fs)
      → All IsEncodable fs
      → let s' = (send_transaction timestamp fs s).0.0 in
        let packet = newest s'.sent in
        let payload = drop header_size packet in
        walk size_mod body (suc (length payload)) payload 0 receiver
        ≡ ended_at (length payload) (feed body fs receiver)
  send_transaction-walk {S} body receiver timestamp fs s outside claimed whole room bytes es =
      let r = send_transaction-Committed timestamp fs s outside claimed whole room in
      let h = record ((start_transaction timestamp s).0.header) {
        message_type = transaction;
        payload_size = length (encode_frames fs);
      } in
      subst
        (λ (p : List ℕ).
          walk size_mod body (suc (length p)) p 0 receiver
          ≡ ended_at (length p) (feed body fs receiver))
        (sym (
          ap (λ (ds : List Datagram). drop header_size (newest ds)) (r.2.sent_one)
          ∙ drop-append (encode_header h) (encode_frames fs) header_size
              (sym (length-encode_header h))))
        (walk_whole size_mod body fs receiver (omega arith) bytes es)
