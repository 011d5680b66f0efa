-- ===== src/Portable/Nics/Search.antt =====
-- Which interface the searches choose, and which node IDs a program can start with.
use xbot_framework.Prelude.{
  ℕ, ◌%◌, ◌≡◌, ◌≢◌, ◌↔◌, ◌⊎◌, inl, inr, refl, ap, sym, ◌∙◌, List, [], ◌∷◌, ◌++◌, map, Option, none,
  some, true, false, Bool-cases, Option-cases, arith, replicate, All,
}
use xbot_framework.Portable.Nics.{
  Nic, is_skipped, get_ip, get_ip_within, if_fits, init_system, is_zero_id, node_id_size,
}

-- An interface that is passed over: it is virtual or has no address.
abbrev pub PassedOver : Nic → Type 0
PassedOver nic = (is_skipped nic.name ≡ true) ⊎ (nic.address ≡ none)

-- The primary interface: real, with an address, and behind none but interfaces that are passed over.
pub record Primary (address : List ℕ) (nics : List (Option Nic)) : Type 0 where
  pub before : List Nic
  pub nic : Nic
  pub behind : List (Option Nic)
  pub parts : nics ≡ map some before ++ (some nic ∷ behind)
  pub passed : All PassedOver before
  pub real : is_skipped nic.name ≡ false
  pub has : nic.address ≡ some address

Primary-more :
    (address : List ℕ) (first : Nic) (rest : List (Option Nic))
    → PassedOver first
    → Primary address rest
    → Primary address (some first ∷ rest)
Primary-more address first rest over p = record {
  before = first ∷ p.before;
  nic = p.nic;
  behind = p.behind;
  parts = ap (λ (t : List (Option Nic)). some first ∷ t) p.parts;
  passed = (over, p.passed);
  real = p.real;
  has = p.has;
}

pass :
    (nic : Nic) (rest : List (Option Nic)) → PassedOver nic → get_ip (some nic ∷ rest) ≡ get_ip rest
unfolding get_ip
pass nic rest (inl skipped) = rw skipped refl
pass nic rest (inr unnumbered) = elim (Bool-cases (is_skipped nic.name)) [
  | inl skipped ↦ rw skipped refl
  | inr real ↦ rw (real, unnumbered) refl
]

choose :
    (nic : Nic) (rest : List (Option Nic)) (address : List ℕ)
    → is_skipped nic.name ≡ false
    → nic.address ≡ some address
    → get_ip (some nic ∷ rest) ≡ some address
unfolding get_ip
choose nic rest address real has = rw (real, has) refl

found-Primary :
    (nics : List (Option Nic)) (address : List ℕ)
    → get_ip nics ≡ some address
    → Primary address nics
unfolding get_ip
found-Primary [] address e = absurd (cc)
found-Primary (none ∷ rest) address e = absurd (cc)
found-Primary (some nic ∷ rest) address e = elim (Bool-cases (is_skipped nic.name)) [
  | inl skipped ↦
      Primary-more address nic rest (inl skipped)
        (found-Primary rest address (sym (pass nic rest (inl skipped)) ∙ e))
  | inr real ↦ elim (Option-cases nic.address) [
    | inl unnumbered ↦
        Primary-more address nic rest (inr unnumbered)
          (found-Primary rest address (sym (pass nic rest (inr unnumbered)) ∙ e))
    | inr (a, has) ↦ record {
      before = [];
      nic = nic;
      behind = rest;
      parts = refl;
      passed = tt;
      real = real;
      has = has ∙ (sym (choose nic rest a real has) ∙ e);
    }
  ]
]

primary_found :
    (before : List Nic) (nic : Nic) (behind : List (Option Nic)) (address : List ℕ)
    → All PassedOver before
    → is_skipped nic.name ≡ false
    → nic.address ≡ some address
    → get_ip (map some before ++ (some nic ∷ behind)) ≡ some address
primary_found [] nic behind address passed real has = choose nic behind address real has
primary_found (first ∷ before) nic behind address passed real has =
    pass first (map some before ++ (some nic ∷ behind)) passed.0
    ∙ primary_found before nic behind address passed.1 real has

-- The interface's get_ip finds an address exactly if it is that of the primary interface: the first in the order of
-- the indices that is neither loopback nor virtual and has an address, with no unused index before it.
pub get_ip-Primary :
    (nics : List (Option Nic)) (address : List ℕ)
    → (get_ip nics ≡ some address) ↔ Primary address nics
get_ip-Primary nics address = (
  found-Primary nics address,
  λ p. ap get_ip p.parts ∙ primary_found p.before p.nic p.behind address p.passed p.real p.has,
)

-- The service's get_ip finds what the interface's does, unless it is too long for the buffer.
pub get_ip_within-get_ip :
    (ip_len : ℕ) (nics : List (Option Nic))
    → get_ip_within ip_len nics ≡ if_fits ip_len (get_ip nics)
unfolding get_ip get_ip_within
get_ip_within-get_ip ip_len [] = refl
get_ip_within-get_ip ip_len (none ∷ rest) = refl
get_ip_within-get_ip ip_len (some nic ∷ rest) = elim (Bool-cases (is_skipped nic.name)) [
  | inl skipped ↦ rw skipped (get_ip_within-get_ip ip_len rest)
  | inr real ↦ elim (Option-cases nic.address) [
    | inl unnumbered ↦ rw (real, unnumbered) (get_ip_within-get_ip ip_len rest)
    | inr (a, has) ↦ rw (real, has) refl
  ]
]

-- A program that starts with a node ID of its own exits at once exactly if the low 16 bits of that ID are zero,
-- although the ID itself is not: only these bits are stored.
pub init_system-exits :
    (node_id : ℕ) (nics : List (Option Nic))
    → node_id ≢ 0
    → (init_system node_id nics (replicate node_id_size 0) ≡ none) ↔ (node_id % 65536 ≡ 0)
unfolding init_system is_zero_id
init_system-exits node_id nics given = (λ e. ground arith, λ z. ground arith)
