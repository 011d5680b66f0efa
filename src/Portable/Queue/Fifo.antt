-- ===== src/Portable/Queue/Fifo.antt =====
-- The blocking queue as a bounded first-in first-out list of pointers.
use native.Mathlib.Nat.{mod-eq_of_lt}
use xbot_framework.Prelude.{
  ℕ, ◌+◌, ◌-◌, ◌%◌, ◌<◌, ◌≡◌, refl, ap, ap₂, sym, ◌∙◌, inl, inr, List, [], ◌∷◌, ◌++◌, Bool, true,
  false, arith, length, get_or, set, size_mod, ltb, ◌==◌, ◌&&◌, Bool-cases, if◌then◌else◌,
}
use xbot_framework.Portable.Queue.{
  BlockingQueue, back_idx, is_full, is_empty, push_now, pop_now, push, pop, queue_push_item,
}
use xbot_framework.Portable.Queue.Inv.{IsValid}
use xbot_framework.Portable.Queue.Contents.{
  contents-empty, contents, length-contents, pushed, popped, contents-pushed, contents-popped,
}

-- A bounded list: what a push answers and leaves, and what a pop gives out and leaves.
unfoldable pub fifo_push : ℕ → List ℕ → ℕ → List ℕ × Bool
fifo_push cap xs x = if length xs == cap then (xs, false) else (xs ++ (x ∷ []), true)

unfoldable pub fifo_pop : List ℕ → List ℕ × ℕ
fifo_pop [] = ([], 0)
fifo_pop (x ∷ xs) = (xs, x)

-- The queue that a call finds once it need not wait any more: the other threads have had their turn
-- exactly if the call had to wait and was given time for it.
abbrev pub found : (BlockingQueue → BlockingQueue) → Bool → ℕ → BlockingQueue → BlockingQueue
found others must_wait timeout q = if must_wait && ltb 0 timeout then others q else q

pushes_now :
    (q : BlockingQueue) (ptr : ℕ)
    → IsValid q
    → (contents (push_now q ptr).0, (push_now q ptr).1) ≡ fifo_push q.queue_size (contents q) ptr
unfolding push_now is_full fifo_push
pushes_now q ptr v = elim (Bool-cases (q.item_count == q.queue_size)) [
  | inl full ↦ rw (full, length-contents q, full)
  | inr room ↦
      rw (room, length-contents q, room)
        (let small : q.item_count < q.queue_size = ground arith in
          ap (λ xs. (xs, true)) (ap contents (exact small) ∙ contents-pushed q ptr v small))
]
  where
    exact :
        q.item_count < q.queue_size
        → record q {
          buffer = set q.buffer (back_idx q) ptr;
          item_count = (q.item_count + 1) % size_mod;
        }
          ≡ pushed q ptr
    exact small =
        ap₂
          (λ (at n : ℕ). record q { buffer = set q.buffer (at % q.queue_size) ptr; item_count = n })
          (mod-eq_of_lt {n = q.front_idx + q.item_count} {m = size_mod} (omega arith)) (omega arith)

pops_now :
    (q : BlockingQueue)
    → IsValid q
    → (contents (pop_now q).0, (pop_now q).1) ≡ fifo_pop (contents q)
unfolding pop_now is_empty
pops_now q v = elim (Bool-cases (q.item_count == 0)) [
  | inl empty ↦ rw empty (no_items (ground arith))
  | inr more ↦ rw more (
      let some_item : 0 < q.item_count = ground arith in
      rw (contents-popped q v some_item)
        (unfold fifo_pop in (ap (λ r. (contents r, get_or q.buffer q.front_idx 0)) exact)))
]
  where
    no_items : q.item_count ≡ 0 → (contents q, 0) ≡ fifo_pop (contents q)
    no_items e = rw (contents-empty q e) (unfold fifo_pop in refl)

    exact :
        record q {
          front_idx = ((q.front_idx + 1) % size_mod) % q.queue_size;
          item_count = q.item_count - 1;
        }
        ≡ popped q
    exact =
        ap (λ (at : ℕ). record q { front_idx = at % q.queue_size; item_count = q.item_count - 1 })
          (mod-eq_of_lt {n = q.front_idx + 1} {m = size_mod} (omega arith))

refused :
    (q : BlockingQueue) (ptr : ℕ)
    → is_full q ≡ true
    → fifo_push q.queue_size (contents q) ptr ≡ (contents q, false)
unfolding is_full fifo_push
refused q ptr full = rw (length-contents q, full)

nothing : (q : BlockingQueue) → is_empty q ≡ true → fifo_pop (contents q) ≡ (contents q, 0)
unfolding is_empty fifo_pop
nothing q empty = rw (contents-empty q (ground arith))

-- A push answers and leaves what the bounded list does, on the queue that it finds: a full queue with no
-- time to wait, or one that is still full after the wait, refuses the pointer and is unchanged.
pub push_refines :
    (others : BlockingQueue → BlockingQueue) (q : BlockingQueue) (ptr timeout : ℕ)
    → ((r : BlockingQueue) → IsValid r → IsValid (others r))
    → IsValid q
    → let here = found others (is_full q) timeout q in
      let (q', done) = push others q ptr timeout in
      (contents q', done) ≡ fifo_push here.queue_size (contents here) ptr
unfolding push
push_refines others q ptr timeout keep v = elim (Bool-cases (is_full q)) [
  | inl full ↦ elim (Bool-cases (ltb 0 timeout)) [
    | inl waits ↦ rw (full, waits) (pushes_now (others q) ptr (keep q v))
    | inr at_once ↦ rw (full, at_once) (sym (refused q ptr full))
  ]
  | inr room ↦ rw room (pushes_now q ptr v)
]

-- A pop gives out the oldest pointer and leaves the others in their order; on a queue that it finds empty,
-- at once or after the wait, it gives out a null pointer.
pub pop_refines :
    (others : BlockingQueue → BlockingQueue) (q : BlockingQueue) (timeout : ℕ)
    → ((r : BlockingQueue) → IsValid r → IsValid (others r))
    → IsValid q
    → let here = found others (is_empty q) timeout q in
      let (q', item) = pop others q timeout in (contents q', item) ≡ fifo_pop (contents here)
unfolding pop
pop_refines others q timeout keep v = elim (Bool-cases (is_empty q)) [
  | inl empty ↦ elim (Bool-cases (ltb 0 timeout)) [
    | inl waits ↦ rw (empty, waits) (pops_now (others q) (keep q v))
    | inr at_once ↦ rw (empty, at_once) (sym (nothing q empty))
  ]
  | inr more ↦ rw more (pops_now q v)
]

pub push_item_room :
    (q : BlockingQueue) (ptr : ℕ)
    → IsValid q
    → is_full q ≡ false
    → (contents (queue_push_item q ptr).0 ≡ contents q ++ (ptr ∷ []))
      × ((queue_push_item q ptr).1 ≡ true)
unfolding queue_push_item push fifo_push is_full
push_item_room q ptr v room =
    let e = pushes_now q ptr v in
    rw room (
      ap (λ (r : List ℕ × Bool). r.0) e ∙ rw (length-contents q, room) refl,
      ap (λ (r : List ℕ × Bool). r.1) e ∙ rw (length-contents q, room) refl,
    )

pub push_item_full :
    (q : BlockingQueue) (ptr : ℕ) → is_full q ≡ true → queue_push_item q ptr ≡ (q, false)
unfolding queue_push_item push
push_item_full q ptr full = rw full refl
