-- ===== src/Service/Collect.antt =====
-- Service.cpp: what a client gets that asks for one window of the omitted description after another.
use xbot_framework.Prelude.{
  ℕ, zero, suc, ◌≤◌, ◌<◌, ◌≡◌, List, ◌++◌, false, leb, if◌then◌else◌, length, drop, add32, u16_mod,
  u32_mod,
}
use xbot_framework.Wire.Header.{Header, empty_header, description_request}
use xbot_framework.Wire.Payloads.{DescriptionRequestPayload, encode_request}
use xbot_framework.Service.State.{Service}
use xbot_framework.Service.User.{Impl}
use xbot_framework.Service.Handlers.{handle_description_request, too_soon}
use xbot_framework.Service.Sending.Steps.{newest}

-- A client with an address, and the limit and the pause of its requests.
pub record Client : Type 0 where
  pub ip : ℕ
  pub port : ℕ
  pub limit : ℕ
  pub pause : ℕ

pub record ClientFits (k : Client) : Type 0 where
  pub ip_fits : k.ip < u32_mod
  pub port_fits : k.port < u16_mod
  pub some_limit : 0 < k.limit
  pub rests : 20000 ≤ k.pause
  pub pause_fits : k.pause < u32_mod

-- The request for what follows the bytes that the client has.
abbrev request_at : Client → ℕ → ℕ → DescriptionRequestPayload
request_at k service_id offset = record {
  service_id = service_id;
  target_ip = k.ip;
  target_port = k.port;
  offset = offset;
}

abbrev request_header : Client → Header
request_header k = record empty_header { message_type = description_request; arg2 = k.limit }

module _ {U : Type 0} (impl : Impl U) where
  abbrev later : Client → Service U → Service U
  later k s = record s { time_micros = add32 s.time_micros k.pause }

  -- The service's turn at a request for what follows the bytes that the client has.
  abbrev asked : Client → List ℕ → Service U → Service U
  asked k got s =
      handle_description_request impl (request_header k)
        (encode_request (request_at k s.service_id (length got))) (later k s)

  -- A client that asks for window after window, each at the end of what it has, and takes what is behind the
  -- header and the offset of the newest packet, until it has as many bytes as the description.
  unfoldable pub collect : Client → ℕ → ℕ → Service U → List ℕ → List ℕ
  collect k total zero s got = got
  collect k total (suc rounds) s got =
      let s' = asked k got s in
      let rest = collect k total rounds s' (got ++ drop 26 (newest s'.sent)) in
      if leb total (length got) then got else rest

  -- The service has rested at the next request.
  abbrev Rested : Client → Service U → Type 0
  Rested k s = too_soon impl (later k s) ≡ false
