-- ===== src/Tests/Base.antt =====
-- An interface whose service is discovered.
use xbot_framework.Prelude.{◌≡◌, refl, List, [], ◌∷◌, ◌++◌, foldl, true, false, length, add16}
use xbot_framework.Wire.Header.{encode_header}
use xbot_framework.Wire.Frames.{Frame, encode_frames, feed}
use xbot_framework.Interface.Base.{
  Base, base_start_transaction, base_commit_transaction, begin_rpc, end_rpc, rpc_ok, rpc_timeout,
}
use xbot_framework.Tests.Fixtures.{base}
use xbot_framework.Interface.Base.Rpc.{begin_rpc-first_answer, begin_rpc_overtaken}
use xbot_framework.Interface.Base.Waiting.{Incoming, response, lost, take_in, first_answer}
use xbot_framework.Interface.Base.Transactions.{put_data, committed_header, base_transaction-sent}

abbrev incoming : List Incoming
incoming = response 6 0 (9 ∷ []) ∷ response 7 0 (1 ∷ 2 ∷ []) ∷ lost ∷ []

-- A call is in flight, and ends while the next one waits.
abbrev busy_base : Base
busy_base = record base { rpc_call_active = true }

abbrev ends_call : Base → Base
ends_call s = record s { rpc_call_active = false }

begin_rpc-first_answer_example :
    let (s', begun) = begin_rpc ends_call 2 (8 ∷ []) 100 busy_base in
    (begun ≡ true)
    × ((end_rpc 100 (foldl take_in s' incoming)).1 ≡ first_answer (add16 6 1) 100 incoming)
begin_rpc-first_answer_example =
    begin_rpc-first_answer ends_call 2 (8 ∷ []) 100 incoming busy_base refl refl

begin_rpc_overtaken_example :
    let (earlier, earlier_result) = end_rpc 50 (begin_rpc ends_call 2 (8 ∷ []) 100 busy_base).0 in
    (earlier_result ≡ rpc_timeout) × ((end_rpc 100 earlier).1 ≡ rpc_ok 100 [])
begin_rpc_overtaken_example = begin_rpc_overtaken ends_call 2 (8 ∷ []) 100 50 busy_base refl refl

abbrev frames : List Frame
frames =
    record { target_id = 1; content = 10 ∷ [] }
    ∷ record { target_id = 2; content = 20 ∷ 21 ∷ [] }
    ∷ []

base_transaction-sent_example :
    let (filled, accepted) = feed (put_data true) frames (base_start_transaction true base).0 in
    let (s', done) = base_commit_transaction filled in
    (accepted ≡ true)
    × (done ≡ true)
    × (s'.transaction_started ≡ false)
    × (s'.sent
        ≡ (encode_header (committed_header true (length (encode_frames frames)) base)
            ++ encode_frames frames)
          ∷ [])
base_transaction-sent_example = base_transaction-sent true frames base refl refl refl
