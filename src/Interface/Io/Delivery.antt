-- ===== src/Interface/Io/Delivery.antt =====
-- ServiceIO.cpp: which callbacks get which of a service's data.
use xbot_framework.Prelude.{
  ℕ, ◌≡◌, refl, ap, ◌∙◌, List, [], ◌∷◌, foldl, Bool, true, false, if◌then◌else◌, length, All,
  size_mod,
}
use xbot_framework.Wire.Bytes.{IsBytes}
use xbot_framework.Wire.Header.{Header}
use xbot_framework.Wire.Frames.{Frame, IsEncodable, encode_frames, Outcome, feed}
use xbot_framework.Wire.Frames.Walk.{IsWide}
use xbot_framework.Wire.Frames.RoundTrip.{walk_whole, ended_at}
use xbot_framework.Interface.Io.State.{
  Io, Event, transaction_start, transaction_end, data_received, emit, callbacks_of,
}
use xbot_framework.Interface.Io.Messages.{
  serves, io_handle_data, deliver_transaction, io_handle_transaction, handle_rpc_response,
}

-- What one callback gets of a transaction, the newest call first: its start, the pieces of data, its end.
unfoldable pub frame_events : ℕ → Header → List Frame → List Event → List Event
frame_events c h [] es = es
frame_events c h (f ∷ fs) es =
    frame_events c h fs (data_received c h.service_id h.timestamp f.target_id f.content ∷ es)

unfoldable pub transaction_events : Header → List Frame → List ℕ → List Event → List Event
transaction_events h fs [] es = es
transaction_events h fs (c ∷ cs) es =
    transaction_events h fs cs
      (transaction_end c ∷ frame_events c h fs (transaction_start c h.timestamp ∷ es))

module _ {D : Type 0} where
  abbrev body : ℕ → Header → ℕ → List ℕ → Io D → Io D × Bool
  body c h target_id content t =
      (emit (data_received c h.service_id h.timestamp target_id content) t, true)

  feed-body :
      (c : ℕ) (h : Header) (fs : List Frame) (s : Io D)
      → feed (body c h) fs s ≡ (record s { events = frame_events c h fs s.events }, true)
  unfolding feed frame_events
  feed-body c h [] s = refl
  feed-body c h (f ∷ fs) s =
      feed-body c h fs (emit (data_received c h.service_id h.timestamp f.target_id f.content) s)

  deliver_one :
      (c : ℕ) (h : Header) (fs : List Frame) (s : Io D)
      → IsWide size_mod (encode_frames fs)
      → IsBytes (encode_frames fs)
      → All IsEncodable fs
      → deliver_transaction h (encode_frames fs) s c ≡ record s {
        events =
            transaction_end c ∷ frame_events c h fs (transaction_start c h.timestamp ∷ s.events);
      }
  unfolding deliver_transaction
  deliver_one c h fs s wide bytes es =
      let begun = emit (transaction_start c h.timestamp) s in
      ap (λ (r : Io D × Outcome). emit (transaction_end c) r.0)
        (walk_whole size_mod (body c h) fs begun wide bytes es
          ∙ ap (λ (r : Io D × Bool). ended_at (length (encode_frames fs)) r)
              (feed-body c h fs begun))

  deliver_each :
      (cs : List ℕ) (h : Header) (fs : List Frame) (s : Io D)
      → IsWide size_mod (encode_frames fs)
      → IsBytes (encode_frames fs)
      → All IsEncodable fs
      → foldl (deliver_transaction h (encode_frames fs)) s cs
        ≡ record s { events = transaction_events h fs cs s.events }
  unfolding transaction_events
  deliver_each [] h fs s wide bytes es = refl
  deliver_each (c ∷ cs) h fs s wide bytes es =
      ap (λ (t : Io D). foldl (deliver_transaction h (encode_frames fs)) t cs)
        (deliver_one c h fs s wide bytes es)
      ∙ deliver_each cs h fs _ wide bytes es

  -- A transaction of frames from a claimed service reaches every callback that is registered for the
  -- service, one after another in the order of registration: each gets the start of the transaction with its
  -- timestamp, the pieces of data in their order, and the end; nothing else of the interface changes.
  pub io_handle_transaction-frames :
      (h : Header) (fs : List Frame) (s : Io D)
      → serves h.service_id s ≡ true
      → IsWide size_mod (encode_frames fs)
      → IsBytes (encode_frames fs)
      → All IsEncodable fs
      → io_handle_transaction h (encode_frames fs) s
        ≡ record s { events = transaction_events h fs (callbacks_of h.service_id s) s.events }
  unfolding io_handle_transaction
  io_handle_transaction-frames h fs s served wide bytes es =
      ap
        (λ (b : Bool).
          if b
          then foldl (deliver_transaction h (encode_frames fs)) s (callbacks_of h.service_id s)
          else s)
        served
      ∙ deliver_each (callbacks_of h.service_id s) h fs s wide bytes es

  -- Data, transactions and RPC responses of a service that is unknown or not claimed change nothing.
  pub unserved-dropped :
      (h : Header) (payload : List ℕ) (s : Io D)
      → serves h.service_id s ≡ false
      → (io_handle_data h payload s ≡ s)
        × (io_handle_transaction h payload s ≡ s)
        × (handle_rpc_response h payload s ≡ s)
  unfolding io_handle_data io_handle_transaction handle_rpc_response
  unserved-dropped h payload s unserved = rw unserved (refl, refl, refl)
