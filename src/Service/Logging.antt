-- ===== src/Service/Logging.antt =====
-- libxbot-service/src/RemoteLogging.cpp. The levels of the ulog library are numbers, of which `trace_level` is a
-- parameter; a message is a string up to its NUL.
use Prim.Native.Nat.{min}
use xbot_framework.Prelude.{
  ℕ, zero, suc, ◌+◌, ◌-◌, ◌/◌, ◌%◌, List, [], ◌∷◌, ◌++◌, Option, none, some, ◌&&◌, ltb,
  if◌then◌else◌, length, take, add16, u8_mod,
}
use xbot_framework.Wire.Header.{Header, log}
use xbot_framework.Portable.Packet.{Datagram}
use xbot_framework.Service.Send.{packet_of}

-- `config::max_log_length`, and "233.255.255.1" with `config::multicast_port`
abbrev pub max_log_length : ℕ
max_log_length = 255

abbrev pub remote_log_multicast_address : ℕ
remote_log_multicast_address = 3925868289

abbrev pub log_port : ℕ
log_port = 4242

-- The global variables, with what goes to the socket.
pub record Log : Type 0 where
  pub header : Header
  pub sequence_no : ℕ
  pub level : ℕ
  pub sent : List Datagram

-- `%i` of a number of at most `suc fuel` digits.
unfoldable pub decimal : ℕ → ℕ → List ℕ
decimal zero n = (48 + n % 10) ∷ []
decimal (suc fuel) n =
    let rest = decimal fuel (n / 10) in
    if ltb n 10 then (48 + n) ∷ [] else rest ++ ((48 + n % 10) ∷ [])

-- What `snprintf` makes of "[ID=%i] %s" with a `uint16_t`, or the message alone.
unfoldable pub log_text : Option ℕ → List ℕ → List ℕ
log_text none msg = msg
log_text (some id) msg =
    (0x5B ∷ 0x49 ∷ 0x44 ∷ 0x3D ∷ []) ++ (decimal 4 id ++ ((0x5D ∷ 0x20 ∷ []) ++ msg))

-- `msg_len`: `snprintf` answers the length of the whole text, `strnlen` stops at its bound.
unfoldable pub log_length : Option ℕ → List ℕ → ℕ
log_length none msg = min (length msg) max_log_length
log_length (some id) msg = length (log_text (some id) msg)

unfoldable pub log_header : ℕ → ℕ → Log → Header
log_header trace_level severity s = record s.header {
  protocol_version = 1;
  message_type = log;
  flags = 0;
  arg1 = (severity - trace_level + 1) % u8_mod;
  arg2 = 0;
  sequence_no = s.sequence_no;
  timestamp = 0;
}

-- The members that every message changes.
unfoldable pub counted_log : ℕ → ℕ → Log → Log
counted_log trace_level severity s = record s {
  header = log_header trace_level severity s;
  sequence_no = add16 s.sequence_no 1;
}

unfoldable pub send_log : ℕ → ℕ → List ℕ → Log → Log
send_log trace_level severity text s =
    let h = record (log_header trace_level severity s) { payload_size = length text } in
    record (counted_log trace_level severity s) {
      header = h;
      sent =
          record { ip = remote_log_multicast_address; port = log_port; bytes = packet_of h text }
          ∷ s.sent;
    }

-- `remote_logger`. A severity is at least the trace level.
unfoldable pub remote_logger : ℕ → ℕ → Option ℕ → List ℕ → Log → Log
remote_logger trace_level severity id msg s =
    if ltb severity s.level
    then s
    else (let msg_len = log_length id msg in
        if ltb 0 msg_len && ltb msg_len max_log_length
        then send_log trace_level severity (take msg_len (log_text id msg)) s
        else counted_log trace_level severity s)
