-- ===== src/Interface/LogReceiver.antt =====
-- libxbot-service-interface/src/RemoteLoggingReceiverImpl.cpp: what a received packet prints.
pub mod RoundTrip
use xbot_framework.Prelude.{
  ℕ, ◌+◌, List, ◌∷◌, Option, none, some, Bool, not, ◌==◌, ltb, if◌then◌else◌, length, take, drop,
}
use xbot_framework.Wire.Header.{Header, header_size, decode_header, to_byte}

-- The levels of spdlog that the receiver uses.
pub data LineLevel : Type 0 where
  trace debug info warn error : LineLevel

unfoldable pub line_level : ℕ → LineLevel
line_level n =
    if n == 1
    then trace
    else if n == 2
    then debug
    else if n == 3
    then info
    else if n == 4
    then warn
    else error

-- A round of `Run` with a packet: the line that it prints, with the prefix ">>> " left off.
unfoldable pub receive_log : List ℕ → Option (LineLevel × List ℕ)
receive_log packet =
    if ltb (length packet) header_size
    then none
    else (let h = decode_header packet in
        if not (to_byte h.message_type == 0x7F)
        then none
        else if length packet == h.payload_size + header_size
        then some (line_level h.arg1, take h.payload_size (drop header_size packet))
        else none)
