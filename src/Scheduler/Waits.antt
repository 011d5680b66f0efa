-- ===== src/Scheduler/Waits.antt =====
-- What a tick does to a schedule, and how long an enabled schedule can wait after it.
use native.Mathlib.Nat.{le_trans}
use xbot_framework.Prelude.{
  ℕ, zero, suc, ◌-◌, ◌≡◌, List, [], ◌∷◌, Bool, true, Option, none, some, leb, ◌&&◌, arith,
  if◌then◌else◌, get_elem?, sub32, Bool-cases, inl, inr, leb→lt, ◌≤◌, ◌<◌,
}
use xbot_framework.Scheduler.{Schedule, is_enabled, stamp, sooner}

-- The schedule is enabled, and its interval has passed since it last ran.
abbrev pub is_due : ℕ → Bool → Schedule → Bool
is_due now running c = is_enabled running c && leb c.interval (sub32 now c.last_tick)

abbrev pub after_tick : ℕ → Bool → Schedule → Schedule
after_tick now running c = if is_due now running c then stamp now c else c

-- How long an enabled schedule can wait after the tick.
abbrev pub wait : ℕ → Bool → Schedule → Option ℕ
wait now running c =
    if is_enabled running c
    then some (
        if leb c.interval (sub32 now c.last_tick)
        then c.interval
        else c.interval - sub32 now c.last_tick)
    else none

unfoldable pub soonest : ℕ → Bool → List Schedule → ℕ → ℕ
soonest now running [] m = m
soonest now running (c ∷ cs) m = soonest now running cs (sooner (wait now running c) m)

sooner-le : (w : Option ℕ) (m : ℕ) → sooner w m ≤ m
sooner-le none m = omega arith
sooner-le (some t) m = ground arith

soonest-le_start : (now : ℕ) (r : Bool) (cs : List Schedule) (m : ℕ) → soonest now r cs m ≤ m
unfolding soonest
soonest-le_start now r [] m = omega arith
soonest-le_start now r (c ∷ cs) m =
    le_trans (soonest-le_start now r cs (sooner (wait now r c) m)) (sooner-le (wait now r c) m)

pub soonest-le_wait :
    (now : ℕ) (r : Bool) (cs : List Schedule) (m j : ℕ) (c : Schedule)
    → get_elem? cs j ≡ some c
    → is_enabled r c ≡ true
    → soonest now r cs m ≤ c.interval - sub32 now (after_tick now r c).last_tick
unfolding soonest
soonest-le_wait now r [] m j c at on = cc
soonest-le_wait now r (x ∷ cs) m zero c at on =
    let e : x ≡ c = ground (arith, at) in
    rw e (le_trans (soonest-le_start now r cs (sooner (wait now r c) m)) (first on))
  where
    first :
        is_enabled r c ≡ true
        → sooner (wait now r c) m ≤ c.interval - sub32 now (after_tick now r c).last_tick
    first h = elim (Bool-cases (leb c.interval (sub32 now c.last_tick))) [
      | inl due ↦ rw (h, due) (ground arith)
      | inr early ↦ rw (h, early) (ground arith)
    ]
soonest-le_wait now r (x ∷ cs) m (suc j) c at on =
    soonest-le_wait now r cs (sooner (wait now r x) m) j c at on

pub not_overdue :
    (now : ℕ) (r : Bool) (c : Schedule)
    → is_enabled r c ≡ true
    → sub32 now (after_tick now r c).last_tick < c.interval
not_overdue now r c on = elim (Bool-cases (leb c.interval (sub32 now c.last_tick))) [
  | inl due ↦ rw (on, due) (ground arith)
  | inr early ↦ rw (on, early) (leb→lt c.interval (sub32 now c.last_tick) early)
]
