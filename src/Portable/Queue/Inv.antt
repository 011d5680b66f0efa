-- ===== src/Portable/Queue/Inv.antt =====
-- The representation invariant of the blocking queue.
use xbot_framework.Prelude.{
  ◌+◌, ℕ, ◌*◌, ◌≤◌, ◌<◌, ◌≡◌, List, some, if◌then◌else◌, arith, length, length-set, size_mod,
}
use xbot_framework.Portable.Queue.{
  BlockingQueue, pointer_size, back_idx, is_full, is_empty, push_now, pop_now, init, push, pop,
  queue_push_item,
}

pub record IsValid (q : BlockingQueue) : Type 0 where
  pub storage : q.queue_size ≤ length q.buffer
  pub addressable : q.queue_size * pointer_size < size_mod
  pub front_in : q.front_idx < q.queue_size
  pub count_in : q.item_count ≤ q.queue_size

-- `init` accepts a size of at least one and a buffer of as many pointers, and gives a valid queue without
-- items.
pub init-IsValid :
    (size : ℕ) (buffer : List ℕ)
    → 1 ≤ size
    → size * pointer_size < size_mod
    → length buffer ≡ size
    → (q : BlockingQueue) × (init size (some buffer) (size * pointer_size) ≡ some q)
      × IsValid q
      × (q.item_count ≡ 0)
unfolding init
init-IsValid size buffer one small e = (
  record { buffer = buffer; front_idx = 0; queue_size = size; item_count = 0 },
  ground arith,
  ground arith,
  ground arith,
)

-- `push` keeps the invariant, on every branch, if the other threads keep it during the wait.
pub push-IsValid :
    (others : BlockingQueue → BlockingQueue) (q : BlockingQueue) (ptr timeout : ℕ)
    → ((r : BlockingQueue) → IsValid r → IsValid (others r))
    → IsValid q
    → IsValid (push others q ptr timeout).0
unfolding push push_now is_full
push-IsValid others q ptr timeout keep v = ground (
  arith,
  keep q v,
  length-set q.buffer (back_idx q) ptr,
  length-set (others q).buffer (back_idx (others q)) ptr,
)

-- `pop` keeps the invariant, on every branch, if the other threads keep it during the wait.
pub pop-IsValid :
    (others : BlockingQueue → BlockingQueue) (q : BlockingQueue) (timeout : ℕ)
    → ((r : BlockingQueue) → IsValid r → IsValid (others r))
    → IsValid q
    → IsValid (pop others q timeout).0
unfolding pop pop_now is_empty
pop-IsValid others q timeout keep v = ground (arith, keep q v)

pub push_item-count :
    (q : BlockingQueue) (item : ℕ)
    → IsValid q
    → (queue_push_item q item).0.item_count + (if (queue_push_item q item).1 then 0 else 1)
      ≡ q.item_count + 1
unfolding queue_push_item push push_now is_full
push_item-count q item v = ground (arith, v.addressable, v.count_in)

pub push_item-IsValid :
    (q : BlockingQueue) (item : ℕ) → IsValid q → IsValid (queue_push_item q item).0
unfolding queue_push_item
push_item-IsValid q item v = push-IsValid (λ r. r) q item 0 (λ r w. w) v
