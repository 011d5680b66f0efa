-- ===== src/Tests/Service/Sending.antt =====
-- What the claimed service of the fixtures sends.
use xbot_framework.Prelude.{
  ℕ, ◌≡◌, refl, arith, List, [], ◌∷◌, Bool, true, length, replicate, size_mod, suc, drop,
}
use xbot_framework.Wire.Bytes.{le_bytes}
use xbot_framework.Wire.Header.{header_size, decode_header}
use xbot_framework.Wire.Frames.{Frame, encode_frames, encode_frame, encode_descriptor, walk, feed}
use xbot_framework.Wire.Frames.RoundTrip.{ended_at}
use xbot_framework.Service.State.{started}
use xbot_framework.Service.Send.{send_data, start_transaction}
use xbot_framework.Wire.Payloads.{DescriptionRequestPayload}
use xbot_framework.Service.Sending.{send_data-long}
use xbot_framework.Service.Sending.Steps.{Committed, newest}
use xbot_framework.Service.Sending.Transactions.{
  send_transaction, send_transaction-Committed, send_transaction-walk,
}
use xbot_framework.Service.Collect.{Client}
use xbot_framework.Portable.Packet.{Datagram}
use xbot_framework.Interface.Io.Messages.{io_receive}
use xbot_framework.Tests.Template.{claimer, running-ServiceFits}
use xbot_framework.Tests.Fixtures.{claimed}

abbrev long_data : List ℕ
long_data = replicate 1500 7

send_data-long_example :
    let (s', done) = send_data 3 long_data claimed in
    (done ≡ true)
    × ((packet : Datagram) × (s'.sent ≡ packet ∷ [])
        × (packet.ip ≡ 2130706433)
        × (packet.port ≡ 4242)
        × (length packet.bytes ≡ header_size)
        × ((decode_header packet.bytes).payload_size ≡ length long_data)
        × (io_receive 9 packet.bytes claimer ≡ claimer))
unfolding started
send_data-long_example =
    send_data-long 3 long_data claimed 9 claimer refl refl (omega arith) (omega arith) (omega arith)
      (omega arith) (omega arith) running-ServiceFits.header_fits

abbrev frames : List Frame
frames =
    record { target_id = 1; content = 10 ∷ [] }
    ∷ record { target_id = 2; content = 20 ∷ 21 ∷ [] }
    ∷ []

send_transaction-Committed_example :
    let ((s', done), accepted) = send_transaction 99 frames claimed in
    (accepted ≡ true)
    × (done ≡ true)
    × Committed claimed (start_transaction 99 claimed).0.header (encode_frames frames) s'
unfolding encode_frames encode_frame encode_descriptor le_bytes started
send_transaction-Committed_example =
    send_transaction-Committed 99 frames claimed refl refl refl (omega arith)

abbrev keep : ℕ → List ℕ → List Frame → List Frame × Bool
keep target_id content fs = (record { target_id = target_id; content = content } ∷ fs, true)

send_transaction-walk_example :
    let s' = (send_transaction 99 frames claimed).0.0 in
    let payload = drop header_size (newest s'.sent) in
    walk size_mod keep (suc (length payload)) payload 0 []
    ≡ ended_at (length payload) (feed keep frames [])
unfolding encode_frames encode_frame encode_descriptor le_bytes started
send_transaction-walk_example =
    send_transaction-walk keep [] 99 frames claimed refl refl refl (omega arith) (ground arith) (
      (record { id_fits = omega arith; size_fits = omega arith }),
      ((record { id_fits = omega arith; size_fits = omega arith }), tt),
    )

abbrev client : Client
client = record { ip = 9; port = 10; limit = 2; pause = 20000 }

abbrev request : DescriptionRequestPayload
request = record { service_id = 5; target_ip = 9; target_port = 10; offset = 1 }
