-- ===== src/Tests/Service/Answers.antt =====
-- Responses to a call with the ID 77, of at most 100 bytes.
use xbot_framework.Prelude.{◌≡◌, refl, [], ◌∷◌, none, some, true, false}
use xbot_framework.Service.State.{Service, started}
use xbot_framework.Service.Rpc.{success, error, send_rpc_response}
use xbot_framework.Service.Answers.{send_rpc_response-send_rpc_response, send_rpc_response-sent}
use xbot_framework.Service.Responses.{carried, answer}
use xbot_framework.Tests.Fixtures.{Store, claimed}

abbrev called : Service Store
called = record claimed {
  rpc_in_progress = true;
  rpc_pending_call_id = 77;
  rpc_max_response_size = 100;
}

send_rpc_response-send_rpc_response_example :
    let s' = (send_rpc_response 77 success (some (1 ∷ [])) 1 called).0 in
    send_rpc_response 77 error none 0 s' ≡ (s', false)
send_rpc_response-send_rpc_response_example =
    send_rpc_response-send_rpc_response 77 success error (some (1 ∷ [])) none 1 0 called

send_rpc_response-sent_example :
    let s' = (send_rpc_response 77 success (some (1 ∷ 2 ∷ [])) 2 called).0 in
    let (status', payload) = carried success (some (1 ∷ 2 ∷ [])) 2 100 in
    (s'.rpc_in_progress ≡ false) × (s'.sent ≡ answer 77 status' payload called ∷ [])
unfolding started
send_rpc_response-sent_example =
    send_rpc_response-sent 77 success (some (1 ∷ 2 ∷ [])) 2 called refl refl refl refl
