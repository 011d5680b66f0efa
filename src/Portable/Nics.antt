-- ===== src/Portable/Nics.antt =====
-- The search for the primary network interface, which libxbot-service/src/portable/linux has in socket.cpp (get_ip)
-- and in system.cpp (generateUniqueId), and libxbot-service-interface/src/Socket.cpp (get_ip); and the node ID of
-- system.cpp. What `ioctl` answers for the indices 1, 2, ... is a list; behind it SIOCGIFNAME fails.
pub mod Search
use Prim.Native.Char.{code}
use Prim.Native.String.{String}
use xbot_framework.Prelude.{
  ℕ, zero, suc, ◌/◌, ◌%◌, List, [], ◌∷◌, ◌++◌, Option, none, some, Bool, true, false, not, ◌&&◌,
  ◌||◌, ◌==◌, leb, if◌then◌else◌, length, take, drop, replicate,
}

-- A name, and the answers of SIOCGIFADDR, as `inet_ntoa` prints it, and SIOCGIFHWADDR.
pub record Nic : Type 0 where
  pub name : List ℕ
  pub address : Option (List ℕ)
  pub mac : Option (List ℕ)

abbrev pub codes_of : String → List ℕ
codes_of String.[] = []
codes_of (String.◌∷◌ c s) = code c ∷ codes_of s

-- `strncmp(name, prefix, strlen(prefix)) == 0`
unfoldable pub has_prefix : List ℕ → List ℕ → Bool
has_prefix [] name = true
has_prefix (c ∷ cs) [] = false
has_prefix (c ∷ cs) (n ∷ ns) = (c == n) && has_prefix cs ns

-- The loopback and the virtual interfaces.
unfoldable pub is_skipped : List ℕ → Bool
is_skipped name =
    has_prefix (codes_of "lo") name
    || (has_prefix (codes_of "docker") name
        || (has_prefix (codes_of "veth") name
            || (has_prefix (codes_of "virbr") name
                || (has_prefix (codes_of "br-") name
                    || (has_prefix (codes_of "wg") name
                        || (has_prefix (codes_of "tun") name
                            || has_prefix (codes_of "tap") name))))))

-- The loop of `get_ip` of the interface; the first index without a name ends it.
unfoldable pub get_ip : List (Option Nic) → Option (List ℕ)
get_ip [] = none
get_ip (none ∷ rest) = none
get_ip (some nic ∷ rest) =
    let later = get_ip rest in
    if is_skipped nic.name
    then later
    else elim nic.address [ none ↦ later | some address ↦ some address ]

-- An address that does not fit the caller's buffer with its NUL ends the search of the service.
abbrev pub if_fits : ℕ → Option (List ℕ) → Option (List ℕ)
if_fits ip_len none = none
if_fits ip_len (some address) = if leb ip_len (length address) then none else some address

-- The loop of `get_ip` of the service.
unfoldable pub get_ip_within : ℕ → List (Option Nic) → Option (List ℕ)
get_ip_within ip_len [] = none
get_ip_within ip_len (none ∷ rest) = none
get_ip_within ip_len (some nic ∷ rest) =
    let later = get_ip_within ip_len rest in
    if is_skipped nic.name
    then later
    else elim nic.address [ none ↦ later | some address ↦ if_fits ip_len (some address) ]

-- The loop of `generateUniqueId`: the MAC of the first interface that is not skipped, if it has one.
unfoldable pub find_mac : List (Option Nic) → Option (List ℕ)
find_mac [] = none
find_mac (none ∷ rest) = none
find_mac (some nic ∷ rest) =
    let later = find_mac rest in if is_skipped nic.name then later else nic.mac

-- `node_id_`
abbrev pub node_id_size : ℕ
node_id_size = 16

unfoldable pub generate_unique_id : List (Option Nic) → List ℕ
generate_unique_id nics = elim (find_mac nics) [
  | none ↦ replicate node_id_size 0
  | some mac ↦ take 6 mac ++ replicate 10 0
]

abbrev pub hardcoded_id : ℕ → List ℕ → List ℕ
hardcoded_id node_id old = (node_id / 256) % 256 ∷ node_id % 256 ∷ drop 2 old

unfoldable pub is_zero_id : List ℕ → Bool
is_zero_id [] = true
is_zero_id (b ∷ bs) = (b == 0) && is_zero_id bs

-- `initSystem`, with the bytes of `node_id_` before; none is `exit(1)`.
unfoldable pub init_system : ℕ → List (Option Nic) → List ℕ → Option (List ℕ)
init_system node_id nics old =
    let id = if not (node_id == 0) then hardcoded_id node_id old else generate_unique_id nics in
    if is_zero_id id then none else some id
