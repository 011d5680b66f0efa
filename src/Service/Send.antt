-- ===== src/Service/Send.antt =====
-- Service.cpp: the packets that a service sends, and its transactions.
use Prim.Native.Nat.{bit_and}
use xbot_framework.Prelude.{
  ℕ, ◌+◌, ◌-◌, ◌%◌, u32_mod, List, [], ◌∷◌, ◌++◌, Bool, true, false, ◌==◌, leb, if◌then◌else◌,
  length, take, drop, add16,
}
use xbot_framework.Wire.Header.{
  Header, encode_header, unknown, data_message, claim, heartbeat, transaction,
  configuration_request,
}
use xbot_framework.Wire.Frames.{descriptor_size, encode_descriptor}
use xbot_framework.Portable.Packet.{Packet, allocate_packet, packet_append_data}
use xbot_framework.Service.State.{Service, is_claimed, scratch_size}

-- The members of the next header; the flags lose the reboot bit when the sequence number rolls over.
unfoldable pub next_header : ℕ → ℕ → Header → Header
next_header service_id time_micros h = record h {
  service_id = service_id;
  message_type = unknown;
  payload_size = 0;
  protocol_version = 1;
  arg1 = 0;
  arg2 = 0;
  sequence_no = add16 h.sequence_no 1;
  flags = if add16 h.sequence_no 1 == 0 then bit_and h.flags 0xFE else h.flags;
  timestamp = time_micros;
}

-- A packet of a header and a payload, as two appends make it.
unfoldable pub packet_of : Header → List ℕ → Packet
packet_of h payload =
    (packet_append_data (packet_append_data allocate_packet (encode_header h)).0 payload).0

-- A write of bytes into a buffer that has room for them.
unfoldable pub write_at : List ℕ → ℕ → List ℕ → List ℕ
write_at buffer at bytes = take at buffer ++ (bytes ++ drop (at + length bytes) buffer)

module _ {U : Type 0} where
  unfoldable pub fill_header : Service U → Service U
  fill_header s = record s { header = next_header s.service_id s.time_micros s.header }

  -- `Io::transmitPacket`, which always answers true.
  unfoldable pub transmit : ℕ → ℕ → Packet → Service U → Service U
  transmit ip port packet s = record s {
    sent = record { ip = ip; port = port; bytes = packet } ∷ s.sent;
  }

  -- Sends the header as it stands, with a payload, to the target of the service.
  unfoldable pub send_with : Header → List ℕ → Service U → Service U
  send_with h payload s =
      transmit s.target_ip s.target_port (packet_of h payload) (record s { header = h })

  unfoldable pub send_data_message : ℕ → List ℕ → Service U → Service U
  send_data_message target_id content s =
      let h = (fill_header s).header in
      send_with
        (record h {
          message_type = data_message;
          payload_size = length content % u32_mod;
          arg2 = target_id;
        })
        content s

  unfoldable pub append_to_transaction : ℕ → List ℕ → Service U → Service U × Bool
  append_to_transaction target_id content s =
      if leb (s.scratch_buffer_fill + length content + descriptor_size) scratch_size
      then (
        record s {
          scratch_buffer =
              write_at s.scratch_buffer s.scratch_buffer_fill
                (encode_descriptor target_id (length content) ++ content);
          scratch_buffer_fill = s.scratch_buffer_fill + (length content + descriptor_size);
        },
        true,
      )
      else (s, false)

  -- `SendData`; the data is an object in memory, so no sum of sizes wraps.
  unfoldable pub send_data : ℕ → List ℕ → Service U → Service U × Bool
  unfolding send_data_message append_to_transaction
  send_data target_id content s =
      if s.transaction_started
      then append_to_transaction target_id content s
      else if is_claimed s
      then (send_data_message target_id content s, true)
      else (s, false)

  unfoldable pub send_data_claim_ack : Service U → Service U × Bool
  send_data_claim_ack s =
      if is_claimed s
      then (
        let h = (fill_header s).header in
            send_with (record h { message_type = claim; payload_size = 0; arg1 = 1 }) [] s,
        true,
      )
      else (s, false)

  -- `StartTransaction` keeps one hold of the mutex until `CommitTransaction`.
  unfoldable pub start_transaction : ℕ → Service U → Service U × Bool
  start_transaction timestamp s = if s.transaction_started then (s, false) else (
    let h = (fill_header s).header in
        record s {
          locks = s.locks + 1;
          header = if timestamp == 0 then h else record h { timestamp = timestamp };
          scratch_buffer_fill = 0;
          transaction_started = true;
        },
    true,
  )

  -- `CommitTransaction` takes the mutex, gives up the hold of `StartTransaction` if there is one, and
  -- gives up its own.
  unfoldable pub commit_transaction : Service U → Service U × Bool
  commit_transaction s =
      let held = s.locks + 1 in
      let left = if s.transaction_started then held - 1 else held in
      let s' = record s { locks = left - 1; transaction_started = false } in
      if is_claimed s
      then (
        send_with
            (record s.header { message_type = transaction; payload_size = s.scratch_buffer_fill })
            (take s.scratch_buffer_fill s.scratch_buffer) s',
        true,
      )
      else (s', false)

  unfoldable pub send_heartbeat : Service U → Service U
  send_heartbeat s =
      let h = (fill_header s).header in
      send_with (record h { message_type = heartbeat; payload_size = 0; arg1 = 0 }) [] s

  unfoldable pub send_configuration_request : Service U → Service U
  send_configuration_request s =
      let h = (fill_header s).header in
      send_with (record h { message_type = configuration_request; payload_size = 0; arg1 = 0 }) [] s
