-- ===== src/Portable/Sockets.antt =====
-- libxbot-service/src/portable/linux/socket.cpp, with what the system calls answer as arguments. `descriptor` is the
-- integer behind a SocketPtr, none for -1; `opened` holds the descriptors that are got and not closed.
use xbot_framework.Prelude.{
  ℕ, ◌<◌, ◌≡◌, sym, subst, List, ◌∷◌, Option, none, some, Bool, true, false, ◌&&◌, leb, leb→lt,
  if◌then◌else◌, length, Bool-cases, inl, inr, if-keeps,
}
use xbot_framework.Portable.Nics.{Nic, get_ip, get_ip_within, if_fits}
use xbot_framework.Portable.Nics.Search.{get_ip_within-get_ip}

-- What `getEndpoint` writes: the address as text, up to its NUL, and the port.
pub record Endpoint : Type 0 where
  pub address : List ℕ
  pub port : ℕ

pub record Sock : Type 0 where
  pub descriptor : Option ℕ
  pub opened : List ℕ

-- The answers of setsockopt for the timeout, for SO_REUSEPORT and for IP_MULTICAST_LOOP, and of bind.
pub record SetUp : Type 0 where
  pub timeout_set : Bool
  pub reuse_set : Bool
  pub loop_set : Bool
  pub bound : Bool

-- Which answers let `initialize` succeed.
abbrev pub set_up : Bool → SetUp → Bool
set_up bind_multicast a =
    a.timeout_set && ((if bind_multicast then a.reuse_set && a.loop_set else true) && a.bound)

-- `initialize`: any refusal closes the new descriptor and returns.
unfoldable pub sock_initialize : Option ℕ → Bool → SetUp → Sock → Sock × Bool
sock_initialize socket_result bind_multicast answers s = elim socket_result [
  | none ↦ (record s { descriptor = none }, false)
  | some fd ↦
      if set_up bind_multicast answers
      then (record s { descriptor = some fd; opened = fd ∷ s.opened }, true)
      else (record s { descriptor = none }, false)
]

-- `getEndpoint`, with what getsockname answers: an address, none for 0.0.0.0, and a port; for a buffer of
-- `ip_len` bytes.
unfoldable pub sock_get_endpoint :
    ℕ → Option (Option (List ℕ) × ℕ) → List (Option Nic) → Option Endpoint
sock_get_endpoint ip_len sockname nics = elim sockname [
  | none ↦ none
  | some (none, port) ↦ elim (get_ip_within ip_len nics) [
    | none ↦ none
    | some address ↦ some (record { address = address; port = port })
  ]
  | some (some address, port) ↦
      if leb ip_len (length address) then none else some (record { address = address; port = port })
]

-- An address with its NUL fits the buffer.
abbrev IsShort : ℕ → Option Endpoint → Type 0
IsShort ip_len none = Unit
IsShort ip_len (some e) = length e.address < ip_len

within-IsShort :
    (ip_len port : ℕ) (o : Option (List ℕ))
    → IsShort ip_len (elim (if_fits ip_len o) [
      | none ↦ none
      | some address ↦ some (record { address = address; port = port })
    ])
within-IsShort ip_len port none = tt
within-IsShort ip_len port (some address) = elim (Bool-cases (leb ip_len (length address))) [
  | inl long ↦ rw long tt
  | inr short ↦ rw short (leb→lt ip_len (length address) short)
]

endpoint-IsShort :
    (ip_len : ℕ) (sockname : Option (Option (List ℕ) × ℕ)) (nics : List (Option Nic))
    → IsShort ip_len (sock_get_endpoint ip_len sockname nics)
unfolding sock_get_endpoint
endpoint-IsShort ip_len none nics = tt
endpoint-IsShort ip_len (some (none, port)) nics =
    subst
      (λ (o : Option (List ℕ)).
        IsShort ip_len (elim o [
          | none ↦ none
          | some address ↦ some (record { address = address; port = port })
        ]))
      (sym (get_ip_within-get_ip ip_len nics)) (within-IsShort ip_len port (get_ip nics))
endpoint-IsShort ip_len (some (some address, port)) nics =
    if-keeps (IsShort ip_len) (leb ip_len (length address)) none _ (λ _. tt)
      (λ short. leb→lt ip_len (length address) short)

-- Every address that getEndpoint hands out leaves room for its NUL in the caller's buffer.
pub sock_get_endpoint-lt :
    (ip_len : ℕ) (sockname : Option (Option (List ℕ) × ℕ)) (nics : List (Option Nic)) (e : Endpoint)
    → sock_get_endpoint ip_len sockname nics ≡ some e
    → length e.address < ip_len
sock_get_endpoint-lt ip_len sockname nics e found =
    subst (IsShort ip_len) found (endpoint-IsShort ip_len sockname nics)
