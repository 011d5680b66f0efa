-- ===== src/Scheduler/Steps.antt =====
-- What every tick keeps, whatever its callbacks do.
use xbot_framework.Prelude.{ℕ, zero, suc, leb, get_elem?, sub32, Bool-cases, Option-cases, inl, inr}
use xbot_framework.Scheduler.{Host, is_enabled, modify, stamp, sooner, fire, visit, tick_from, tick}

module _ {ℓ κ} {S : Type ℓ} (host : Host S) (P : S → Type κ) where
  open host use {get, put, running, callback}

  -- What is kept when the clock advances, when a schedule is stamped and by every callback.
  pub record IsKept : Type (ℓ ⊔ κ) where
    pub by_clock : (now : ℕ) (s : S) → P s → P (put (record (get s) { now = now }) s)
    pub by_stamp :
        (now i : ℕ) (s : S)
        → P s
        → P (put (record (get s) { schedules = modify (stamp now) i (get s).schedules }) s)
    pub by_callback : (i : ℕ) (s : S) → P s → P (callback i s)

  module _ (kept : IsKept) where
    fire-keeps : (i : ℕ) (s : S) → P s → P (fire host i s).0
    unfolding fire
    fire-keeps i s h =
        kept.by_stamp (get (callback i s)).now i (callback i s) (kept.by_callback i s h)

    visit-keeps : (i : ℕ) (s : S) → P s → P (visit host i s).0
    unfolding visit
    visit-keeps i s h = elim (Option-cases (get_elem? (get s).schedules i)) [
      | inl e ↦ rw (e, visit) h
      | inr (c, e) ↦
          rw (e, visit)
            (elim (Bool-cases (is_enabled (running s) c)) [
              | inr off ↦ rw off h
              | inl on ↦ elim (Bool-cases (leb c.interval (sub32 (get s).now c.last_tick))) [
                | inl due ↦ rw (on, due) (fire-keeps i s h)
                | inr early ↦ rw (on, early) h
              ]
            ])
    ]

    tick_from-keeps : (rounds i m : ℕ) (s : S) → P s → P (tick_from host rounds i m s).0
    unfolding tick_from
    tick_from-keeps zero i m s h = h
    tick_from-keeps (suc rounds) i m s h =
        tick_from-keeps rounds (suc i) (sooner (visit host i s).1 m) (visit host i s).0
          (visit-keeps i s h)

    pub tick-keeps : (count : ℕ) (s : S) → P s → P (tick host count s).0
    unfolding tick
    tick-keeps count s h = tick_from-keeps _ 0 _ _ (kept.by_clock _ s h)
