-- ===== src/Service/Parts.antt =====
-- Service.cpp: the windows of the omitted description.
use xbot_framework.Prelude.{
  ℕ, ◌+◌, ◌-◌, ◌%◌, ◌^◌, ◌≤◌, ◌<◌, ◌≡◌, refl, sym, ◌∙◌, List, ◌++◌, Bool, true, false, true≢false,
  if-keeps, ◌||◌, ◌==◌, leb, arith, length, take, drop, u16_mod,
}
use xbot_framework.Wire.Bytes.{le_bytes}
use xbot_framework.Wire.Header.{Header, description_part, encode_header, header_size}
use xbot_framework.Wire.Payloads.{DescriptionRequestPayload}
use xbot_framework.Portable.Packet.{Datagram, max_packet_size}
use xbot_framework.Service.State.{Service}
use xbot_framework.Service.Send.{next_header, transmit}
use xbot_framework.Service.User.{Impl}
use xbot_framework.Service.Handlers.{window_length, send_window, answer_request, too_soon}

-- Every window of a request within the description, with a positive limit, has a byte at least, stays within
-- the description and the limit, and fits a packet with its header and its offset.
pub window_length-bounds :
    (total offset limit : ℕ)
    → offset < total
    → 0 < limit
    → let n = window_length total offset limit in
      (0 < n) × (offset + n ≤ total) × (n ≤ limit) × (header_size + 2 + n ≤ max_packet_size)
unfolding window_length
window_length-bounds total offset limit inside some_room = ground arith

or_true : (a b : Bool) → b ≡ true → (a || b) ≡ true
or_true true b e = refl
or_true false b e = e

module _ {U : Type 0} (impl : Impl U) where
  -- The DESCRIPTION_PART for a request.
  abbrev pub part : DescriptionRequestPayload → List ℕ → ℕ → Service U → Datagram
  part request omitted n s = record {
    ip = request.target_ip;
    port = request.target_port;
    bytes =
        encode_header (record (next_header s.service_id s.time_micros s.header) {
          message_type = description_part;
          arg1 = 0;
          arg2 = length omitted % u16_mod;
          payload_size = 2 + n;
        })
        ++ (le_bytes 2 request.offset ++ take n (drop request.offset omitted));
  }

  -- A request less than 20 ms after a reply that was not sent at time 0 is ignored.
  pub answer_request-limited :
      (limit : ℕ) (request : DescriptionRequestPayload) (omitted : List ℕ) (s : Service U)
      → ¬ (s.last_description_part_micros ≡ 0)
      → ((s.time_micros + 2 ^ 32 - s.last_description_part_micros) % 2 ^ 32 < 20000)
      → answer_request impl limit request omitted s ≡ s
  unfolding answer_request
  answer_request-limited limit request omitted s some_reply soon =
      let soon' : too_soon impl s ≡ true = ground arith in
      if-keeps (λ (s' : Service U). s' ≡ s) (leb (length omitted) request.offset || too_soon impl s)
        s _ (λ _. refl)
        (λ e. absurd (
          true≢false
            (sym (or_true (leb (length omitted) request.offset) (too_soon impl s) soon') ∙ e)))

  pub answer_request-keeps :
      (limit : ℕ) (request : DescriptionRequestPayload) (omitted : List ℕ) (s : Service U)
      → let s' = answer_request impl limit request omitted s in
        (s'.time_micros ≡ s.time_micros) × (s'.service_id ≡ s.service_id)
  unfolding answer_request send_window transmit
  answer_request-keeps limit request omitted s =
      if-keeps P (leb (length omitted) request.offset || too_soon impl s) s _ (λ _. (refl, refl))
        (λ _.
          if-keeps P (window_length (length omitted) request.offset limit == 0) s _
            (λ _. (refl, refl)) (λ _. (refl, refl)))
    where
      P : Service U → Type 0
      P s' = (s'.time_micros ≡ s.time_micros) × (s'.service_id ≡ s.service_id)
