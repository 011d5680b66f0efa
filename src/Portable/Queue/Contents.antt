-- ===== src/Portable/Queue/Contents.antt =====
-- The pointers of the blocking queue as a list, and what a push and a pop change in it.
use native.Mathlib.Nat.{mod-add-mod, mod-eq_of_lt, mod-eq-sub-mod, add-zero}
use native.Mathlib.Decide.{dec_lt}
use xbot_framework.Prelude.{
  ℕ, zero, suc, ◌+◌, ◌-◌, ◌%◌, ◌≤◌, ◌<◌, ◌≡◌, refl, ap, ap₂, sym, ◌∙◌, ◌≢◌, ◌⊎◌, inl, inr, List, [],
  ◌∷◌, ◌++◌, arith, length, get_or, set, length-append,
}
use xbot_framework.Portable.Queue.{BlockingQueue}
use xbot_framework.Portable.Queue.Inv.{IsValid}

-- The values of a function below a bound, in order.
pub list_of : {A : Type 0} → (ℕ → A) → ℕ → List A
list_of f zero = []
list_of f (suc n) = list_of f n ++ (f n ∷ [])

list_of_ext :
    {A : Type 0} (f g : ℕ → A) (n : ℕ) → ((i : ℕ) → i < n → f i ≡ g i) → list_of f n ≡ list_of g n
unfolding list_of
list_of_ext f g zero h = refl
list_of_ext f g (suc n) h =
    ap₂ (λ xs y. xs ++ (y ∷ [])) (list_of_ext f g n (λ i lt. h i (omega arith))) (h n (omega arith))

list_of-suc :
    {A : Type 0} (f : ℕ → A) (n : ℕ) → list_of f (suc n) ≡ f 0 ∷ list_of (λ i. f (suc i)) n
unfolding list_of
list_of-suc f zero = refl
list_of-suc f (suc n) = ap (λ xs. xs ++ (f (suc n) ∷ [])) (list_of-suc f n)

length-list_of : {A : Type 0} (f : ℕ → A) (n : ℕ) → length (list_of f n) ≡ n
unfolding list_of
length-list_of f zero = refl
length-list_of f (suc n) = omega (arith, length-append (list_of f n) (f n ∷ []), length-list_of f n)

-- The pointer that is the `i`-th from the front.
abbrev pub item_at : BlockingQueue → ℕ → ℕ
item_at q i = get_or q.buffer ((q.front_idx + i) % q.queue_size) 0

-- The pointers in the queue, the oldest first.
pub contents : BlockingQueue → List ℕ
contents q = list_of (item_at q) q.item_count

pub length-contents : (q : BlockingQueue) → length (contents q) ≡ q.item_count
unfolding contents
length-contents q = length-list_of (item_at q) q.item_count

get_or-set_self : (xs : List ℕ) (i v : ℕ) → i < length xs → get_or (set xs i v) i 0 ≡ v
get_or-set_self [] i v h = absurd (omega arith)
get_or-set_self (x ∷ xs) zero v h = refl
get_or-set_self (x ∷ xs) (suc i) v h = get_or-set_self xs i v (omega arith)

get_or-set_ne : (xs : List ℕ) (i j v : ℕ) → i ≢ j → get_or (set xs i v) j 0 ≡ get_or xs j 0
get_or-set_ne [] i j v h = refl
get_or-set_ne (x ∷ xs) zero zero v h = absurd (h refl)
get_or-set_ne (x ∷ xs) zero (suc j) v h = refl
get_or-set_ne (x ∷ xs) (suc i) zero v h = refl
get_or-set_ne (x ∷ xs) (suc i) (suc j) v h = get_or-set_ne xs i j v (λ e. h (ap suc e))

-- The remainder of an index that has gone round at most once.
mod_once :
    (x size : ℕ)
    → x < size + size
    → ((x < size) × (x % size ≡ x)) ⊎ ((size ≤ x) × (x % size ≡ x - size))
mod_once x size h = elim (dec_lt x size) [
  | yes lt ↦ inl (lt, mod-eq_of_lt lt)
  | no ge ↦ inr (
    omega arith,
    mod-eq-sub-mod {n = x} {m = size} (omega arith)
        ∙ mod-eq_of_lt {n = x - size} {m = size} (omega arith),
  )
]

-- Less than a full turn apart is a different slot.
slots_ne :
    (size front i j : ℕ) → front < size → i < j → j < size → (front + j) % size ≢ (front + i) % size
slots_ne size front i j h lt small e =
    omega (arith, mod_once (front + j) size (omega arith), mod_once (front + i) size (omega arith))

-- The queue after a push, with unbounded arithmetic.
abbrev pub pushed : BlockingQueue → ℕ → BlockingQueue
pushed q ptr = record q {
  buffer = set q.buffer ((q.front_idx + q.item_count) % q.queue_size) ptr;
  item_count = suc q.item_count;
}

abbrev pub popped : BlockingQueue → BlockingQueue
popped q = record q { front_idx = (q.front_idx + 1) % q.queue_size; item_count = q.item_count - 1 }

-- A new pointer goes behind the others.
pub contents-pushed :
    (q : BlockingQueue) (ptr : ℕ)
    → IsValid q
    → q.item_count < q.queue_size
    → contents (pushed q ptr) ≡ contents q ++ (ptr ∷ [])
unfolding contents list_of
contents-pushed q ptr v room =
    ap₂ (λ xs y. xs ++ (y ∷ []))
      (list_of_ext (item_at (pushed q ptr)) (item_at q) q.item_count (λ i lt.
        get_or-set_ne q.buffer ((q.front_idx + q.item_count) % q.queue_size)
          ((q.front_idx + i) % q.queue_size) ptr
          (slots_ne q.queue_size q.front_idx i q.item_count v.front_in lt room)))
      (get_or-set_self q.buffer ((q.front_idx + q.item_count) % q.queue_size) ptr (
        omega (arith, v.storage, mod_once (q.front_idx + q.item_count) q.queue_size (omega arith))))

-- The pointer at the front goes first, and the others keep their order.
pub contents-popped :
    (q : BlockingQueue)
    → IsValid q
    → 0 < q.item_count
    → contents q ≡ get_or q.buffer q.front_idx 0 ∷ contents (popped q)
unfolding contents
contents-popped q v some_item =
    ap (list_of (item_at q)) one_more
    ∙ (list_of-suc (item_at q) (q.item_count - 1)
        ∙ ap₂ (λ x xs. x ∷ xs) (ap (λ (k : ℕ). get_or q.buffer k 0) first)
            (list_of_ext (λ i. item_at q (suc i)) (item_at (popped q)) (q.item_count - 1)
              (λ i lt. ap (λ (k : ℕ). get_or q.buffer k 0) (turn i))))
  where
    one_more : q.item_count ≡ suc (q.item_count - 1)
    one_more = omega arith

    first : (q.front_idx + 0) % q.queue_size ≡ q.front_idx
    first = ap (λ (k : ℕ). k % q.queue_size) (add-zero q.front_idx) ∙ mod-eq_of_lt v.front_in

    turn :
        (i : ℕ)
        → (q.front_idx + suc i) % q.queue_size
          ≡ ((q.front_idx + 1) % q.queue_size + i) % q.queue_size
    turn i =
        ap (λ (k : ℕ). k % q.queue_size) (shift i)
        ∙ sym (mod-add-mod (q.front_idx + 1) q.queue_size i)
      where
        shift : (j : ℕ) → q.front_idx + suc j ≡ q.front_idx + 1 + j
        shift j = omega arith

pub contents-empty : (q : BlockingQueue) → q.item_count ≡ 0 → contents q ≡ []
unfolding contents list_of
contents-empty q e = ap (list_of (item_at q)) e
