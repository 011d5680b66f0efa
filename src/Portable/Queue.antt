-- ===== src/Portable/Queue.antt =====
-- libxbot-service/src/portable/linux/queue.cpp and include/xbot/queue_impl.hpp: the blocking queue that
-- hands packets from the IO thread to a service. Pointers are numbers, `nullptr` is 0. The mutex makes
-- each call atomic but for the wait on a condition variable, during which other threads may call:
-- `others` is what they did to the queue until this call has the mutex again.
pub mod Inv
pub mod Contents
pub mod Fifo
use xbot_framework.Prelude.{
  ℕ, ◌+◌, ◌-◌, ◌*◌, ◌%◌, List, Bool, true, false, Option, none, some, not, leb, ltb, ◌==◌, ◌&&◌,
  if◌then◌else◌, get_or, set, size_mod,
}

pub record BlockingQueue : Type 0 where
  pub buffer : List ℕ
  pub front_idx : ℕ
  pub queue_size : ℕ
  pub item_count : ℕ

-- `sizeof(void *)`
abbrev pub pointer_size : ℕ
pointer_size = 8

-- `init`; a failed assertion is `none`. The buffer, which may be the null pointer, holds `buffer_size` bytes of
-- pointers.
pub init : ℕ → Option (List ℕ) → ℕ → Option BlockingQueue
init size none buffer_size = none
init size (some buffer) buffer_size =
    if leb 1 size && leb ((size * pointer_size) % size_mod) buffer_size
    then some (record { buffer = buffer; front_idx = 0; queue_size = size; item_count = 0 })
    else none

pub is_empty : BlockingQueue → Bool
is_empty q = q.item_count == 0

pub is_full : BlockingQueue → Bool
is_full q = q.item_count == q.queue_size

-- (front_idx_ + item_count_) % queue_size_, in `size_t`
abbrev pub back_idx : BlockingQueue → ℕ
back_idx q = ((q.front_idx + q.item_count) % size_mod) % q.queue_size

push_now : BlockingQueue → ℕ → BlockingQueue × Bool
push_now q ptr = if is_full q then (q, false) else (
  record q { buffer = set q.buffer (back_idx q) ptr; item_count = (q.item_count + 1) % size_mod },
  true,
)

pub push : (BlockingQueue → BlockingQueue) → BlockingQueue → ℕ → ℕ → BlockingQueue × Bool
push others q ptr timeout_micros =
    if is_full q
    then (if ltb 0 timeout_micros then push_now (others q) ptr else (q, false))
    else push_now q ptr

pop_now : BlockingQueue → BlockingQueue × ℕ
pop_now q = if is_empty q then (q, 0) else (
  record q {
    front_idx = ((q.front_idx + 1) % size_mod) % q.queue_size;
    item_count = q.item_count - 1;
  },
  get_or q.buffer q.front_idx 0,
)

pub pop : (BlockingQueue → BlockingQueue) → BlockingQueue → ℕ → BlockingQueue × ℕ
pop others q timeout_micros =
    if is_empty q then (if ltb 0 timeout_micros then pop_now (others q) else (q, 0)) else pop_now q

-- The pointer goes out through `result`; a null pointer counts as no item.
pub queue_pop_item : (BlockingQueue → BlockingQueue) → BlockingQueue → ℕ → BlockingQueue × Option ℕ
queue_pop_item others q timeout_micros =
    let (q', item) = pop others q timeout_micros in (q', if item == 0 then none else some item)

-- The queue pointer of a service is never null.
pub queue_push_item : BlockingQueue → ℕ → BlockingQueue × Bool
queue_push_item q item = push (λ r. r) q item 0
