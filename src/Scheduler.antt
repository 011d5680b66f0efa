-- ===== src/Scheduler.antt =====
-- libxbot-service/src/Scheduler.cpp, Schedule.cpp and their headers: periodic callbacks on a 32-bit clock
-- of microseconds. The linked list of schedules is a list, in the order of registration; a schedule is
-- named by its place. Callbacks run in the middle of a tick and may change any schedule.
pub mod Waits
pub mod Positions
pub mod Quiet
pub mod Steps
use xbot_framework.Prelude.{
  ℕ, zero, suc, ◌+◌, ◌-◌, ◌≡◌, List, [], ◌∷◌, ◌++◌, Bool, true, false, Option, none, some, ◌==◌,
  leb, ltb, not, ◌&&◌, if◌then◌else◌, length, get_elem?, add32, sub32,
}

-- Schedule has a flag of its own, ManagedSchedule a reference to one elsewhere (`is_running_`).
pub data Enabled : Type 0 where
  own : Bool → Enabled
  managed : Enabled

pub record Schedule : Type 0 where
  pub last_tick : ℕ
  pub interval : ℕ
  pub enabled : Enabled

pub record Scheduler : Type 0 where
  pub now : ℕ
  pub schedules : List Schedule

-- `NO_ENABLED_SCHEDULE`, UINT32_MAX
abbrev pub no_enabled_schedule : ℕ
no_enabled_schedule = 4294967295

abbrev pub empty_scheduler : Scheduler
empty_scheduler = record { now = 0; schedules = [] }

abbrev pub flag_of : Bool → Enabled → Bool
flag_of running (own b) = b
flag_of running managed = running

-- `IsEnabled`, of both classes; `running` is what a managed schedule refers to.
abbrev pub is_enabled : Bool → Schedule → Bool
is_enabled running c = flag_of running c.enabled && not (c.interval == 0)

-- A change of the schedule at a place.
abbrev pub modify : (Schedule → Schedule) → ℕ → List Schedule → List Schedule
modify f i [] = []
modify f zero (c ∷ cs) = f c ∷ cs
modify f (suc i) (c ∷ cs) = c ∷ modify f i cs

-- `AddSchedule`: at the end, with the current time as its last tick.
unfoldable pub add_schedule : Schedule → Scheduler → Scheduler
add_schedule c s = record s { schedules = s.schedules ++ (record c { last_tick = s.now } ∷ []) }

-- `ScheduleBase::SetInterval` on one schedule.
unfoldable pub with_interval : ℕ → ℕ → Bool → Schedule → Schedule
with_interval now interval reset c =
    if c.interval == interval
    then c
    else record c { interval = interval; last_tick = if reset then now else c.last_tick }

abbrev pub same : Bool → Bool → Bool
same true b = b
same false b = not b

-- `Schedule::SetEnabled` on one schedule; a managed schedule has no such method.
with_flag : ℕ → Bool → Bool → Schedule → Bool → Schedule
with_flag now enabled reset c flag =
    if same flag enabled
    then c
    else record c { enabled = own enabled; last_tick = if reset then now else c.last_tick }

unfoldable pub with_enabled : ℕ → Bool → Bool → Schedule → Schedule
unfolding with_flag
with_enabled now enabled reset c = elim c.enabled [
  | own flag ↦ with_flag now enabled reset c flag
  | managed ↦ c
]

unfoldable pub set_interval : ℕ → ℕ → Bool → Scheduler → Scheduler
set_interval i interval reset s = record s {
  schedules = modify (with_interval s.now interval reset) i s.schedules;
}

unfoldable pub set_enabled : ℕ → Bool → Bool → Scheduler → Scheduler
set_enabled i enabled reset s = record s {
  schedules = modify (with_enabled s.now enabled reset) i s.schedules;
}

-- The program around a scheduler: where it keeps it, the flag of its managed schedules, and the
-- callback of each schedule.
pub record Host {ℓ} (S : Type ℓ) : Type ℓ where
  pub get : S → Scheduler
  pub put : Scheduler → S → S
  pub running : S → Bool
  pub callback : ℕ → S → S
  pub get-put : (c : Scheduler) (s : S) → get (put c s) ≡ c
  pub put-put : (c d : Scheduler) (s : S) → put c (put d s) ≡ put c s
  pub put-get : (s : S) → put (get s) s ≡ s
  pub running-put : (c : Scheduler) (s : S) → running (put c s) ≡ running s

-- A schedule has last run now.
abbrev pub stamp : ℕ → Schedule → Schedule
stamp now c = record c { last_tick = now }

-- `schedule->interval_`, read once more after the callback.
abbrev pub interval_at : List Schedule → ℕ → ℕ
interval_at [] i = 0
interval_at (c ∷ cs) zero = c.interval
interval_at (c ∷ cs) (suc i) = interval_at cs i

abbrev pub sooner : Option ℕ → ℕ → ℕ
sooner none min_sleep_time = min_sleep_time
sooner (some t) min_sleep_time = if ltb t min_sleep_time then t else min_sleep_time

module _ {ℓ} {S : Type ℓ} (host : Host S) where
  open host use {get, put, running, callback}

  -- A due schedule: its callback, then its new last tick, and the time until it is due again.
  unfoldable pub fire : ℕ → S → S × Option ℕ
  fire i s =
      let s' = callback i s in
      (
        put (record (get s') { schedules = modify (stamp (get s').now) i (get s').schedules }) s',
        some (interval_at (get s').schedules i),
      )

  -- One round of the loop of `Tick`: the new state, and the sleep time unless the schedule is disabled.
  unfoldable pub visit : ℕ → S → S × Option ℕ
  visit i s = elim (get_elem? (get s).schedules i) [
    | none ↦ (s, none)
    | some c ↦
        if is_enabled (running s) c
        then if leb c.interval (sub32 (get s).now c.last_tick)
          then fire i s
          else (s, some (c.interval - sub32 (get s).now c.last_tick))
        else (s, none)
  ]

  unfoldable pub tick_from : ℕ → ℕ → ℕ → S → S × ℕ
  tick_from zero i min_sleep_time s = (s, min_sleep_time)
  tick_from (suc rounds) i min_sleep_time s =
      let (s', sleep_time) = visit i s in
      tick_from rounds (suc i) (sooner sleep_time min_sleep_time) s'

  -- `Scheduler::Tick`. No schedule is registered during a tick.
  unfoldable pub tick : ℕ → S → S × ℕ
  tick count s =
      let s' = put (record (get s) { now = add32 (get s).now count }) s in
      tick_from (length (get s').schedules) 0 no_enabled_schedule s'
