-- ===== src/Scheduler/Quiet.antt =====
-- A tick whose due callbacks leave the scheduler alone, against a description of what it does.
use xbot_framework.Prelude.{
  ℕ, suc, ◌-◌, ◌≡◌, refl, sym, ap, ap₂, ◌∙◌, List, [], ◌∷◌, ◌++◌, Bool, true, false, none, some,
  leb, ◌&&◌, arith, if◌then◌else◌, length, get_elem?, add32, sub32, map, Bool-cases, inl, inr,
  append_assoc, length-append,
}
use xbot_framework.Scheduler.{
  Schedule, Scheduler, Host, no_enabled_schedule, is_enabled, stamp, sooner, fire, visit, tick_from,
  tick,
}
use xbot_framework.Scheduler.Waits.{is_due, after_tick, wait, soonest}
use xbot_framework.Scheduler.Positions.{get_elem?-append, modify-append, interval_at-append}

module _ {ℓ} {S : Type ℓ} (host : Host S) where
  open host use {get, put, running, callback}

  -- The callbacks of the due schedules, in the order of registration.
  unfoldable pub run_due : ℕ → Bool → ℕ → List Schedule → S → S
  run_due now run i [] s = s
  run_due now run i (c ∷ cs) s =
      run_due now run (suc i) cs (if is_due now run c then callback i s else s)

  -- A callback that neither reads nor changes the scheduler and its flag.
  pub record IsQuietAt (i : ℕ) : Type ℓ where
    pub callback-put : (c : Scheduler) (s : S) → callback i (put c s) ≡ put c (callback i s)
    pub running-callback : (s : S) → running (callback i s) ≡ running s

  -- The callbacks of the due schedules are so; those of the others need not be.
  abbrev pub QuietDue : ℕ → Bool → ℕ → List Schedule → Type ℓ
  QuietDue now r i [] = Unit
  QuietDue now r i (c ∷ cs) = (is_due now r c ≡ true → IsQuietAt i) × QuietDue now r (suc i) cs

module _ {ℓ} {S : Type ℓ} (host : Host S) where
  open host use {get, put, running, callback}

  get-callback : (i : ℕ) (s : S) → IsQuietAt host i → get (callback i s) ≡ get s
  get-callback i s quiet =
      ap (λ t. get (callback i t)) (sym (host.put-get s))
      ∙ (ap get (quiet.callback-put (get s) s) ∙ host.get-put (get s) (callback i s))

  -- What one round does at the schedule behind `pre`.
  visited : ℕ → Bool → List Schedule → Schedule → List Schedule → ℕ → S → S
  visited now r pre c cs i s =
      put (record { now = now; schedules = pre ++ (after_tick now r c ∷ cs) })
        (if is_due now r c then callback i s else s)

  visited-due :
      (now : ℕ) (r : Bool) (pre : List Schedule) (c : Schedule) (cs : List Schedule) (i : ℕ) (s : S)
      → is_due now r c ≡ true
      → visited now r pre c cs i s
        ≡ put (record { now = now; schedules = pre ++ (stamp now c ∷ cs) }) (callback i s)
  unfolding visited
  visited-due now r pre c cs i s due = rw (due, visited)

  visited-early :
      (now : ℕ) (r : Bool) (pre : List Schedule) (c : Schedule) (cs : List Schedule) (i : ℕ) (s : S)
      → get s ≡ record { now = now; schedules = pre ++ (c ∷ cs) }
      → is_due now r c ≡ false
      → s ≡ visited now r pre c cs i s
  unfolding visited
  visited-early now r pre c cs i s here early =
      rw (early, visited) (sym (ap (λ d. put d s) (sym here) ∙ host.put-get s))

  fire-quiet :
      (now : ℕ) (pre : List Schedule) (c : Schedule) (cs : List Schedule) (i : ℕ) (s : S)
      → get s ≡ record { now = now; schedules = pre ++ (c ∷ cs) }
      → i ≡ length pre
      → IsQuietAt host i
      → fire host i s ≡ (
        put (record { now = now; schedules = pre ++ (stamp now c ∷ cs) }) (callback i s),
        some c.interval,
      )
  unfolding fire
  fire-quiet now pre c cs i s here at quiet =
      rw (get-callback i s quiet, here)
        (rw (modify-append (stamp now) pre c cs i at, interval_at-append pre c cs i at) refl)

  visit-quiet :
      (now : ℕ) (r : Bool) (pre : List Schedule) (c : Schedule) (cs : List Schedule) (i : ℕ) (s : S)
      → get s ≡ record { now = now; schedules = pre ++ (c ∷ cs) }
      → running s ≡ r
      → i ≡ length pre
      → (is_due now r c ≡ true → IsQuietAt host i)
      → visit host i s ≡ (visited now r pre c cs i s, wait now r c)
  unfolding visit
  visit-quiet now r pre c cs i s here run at quiet = elim (Bool-cases (is_enabled r c)) [
    | inr off ↦
        rw (found, visit) (rw (run, off) (ap (λ t. (t, none)) (early (ap (λ b. b && timely) off))))
    | inl on ↦ elim (Bool-cases timely) [
      | inl due ↦
          rw (found, visit)
            (rw (run, on, here, due)
              (fire-quiet now pre c cs i s here at (quiet (ap₂ ◌&&◌ on due))
                ∙ ap (λ t. (t, some c.interval))
                    (sym (visited-due now r pre c cs i s (ap₂ ◌&&◌ on due)))))
      | inr soon ↦
          rw (found, visit)
            (rw (run, on, here, soon)
              (ap (λ t. (t, some (c.interval - sub32 now c.last_tick))) (early (ap₂ ◌&&◌ on soon))))
    ]
  ]
    where
      timely : Bool
      timely = leb c.interval (sub32 now c.last_tick)

      early : is_due now r c ≡ false → s ≡ visited now r pre c cs i s
      early = visited-early now r pre c cs i s here

      found : get_elem? (get s).schedules i ≡ some c
      found = rw here (get_elem?-append pre c cs i at)

  run_due-put :
      (now : ℕ) (r : Bool) (i : ℕ) (cs : List Schedule) (d : Scheduler) (s : S)
      → QuietDue host now r i cs
      → run_due host now r i cs (put d s) ≡ put d (run_due host now r i cs s)
  unfolding run_due
  run_due-put now r i [] d s quiet = refl
  run_due-put now r i (c ∷ cs) d s quiet = elim (Bool-cases (is_due now r c)) [
    | inl due ↦
        rw (due, (quiet.0 due).callback-put d s)
          (run_due-put now r (suc i) cs d (callback i s) quiet.1)
    | inr early ↦ rw early (run_due-put now r (suc i) cs d s quiet.1)
  ]

  running-visited :
      (now : ℕ) (r : Bool) (pre : List Schedule) (c : Schedule) (cs : List Schedule) (i : ℕ) (s : S)
      → (is_due now r c ≡ true → IsQuietAt host i)
      → running (visited now r pre c cs i s) ≡ running s
  unfolding visited
  running-visited now r pre c cs i s quiet = elim (Bool-cases (is_due now r c)) [
    | inl due ↦
        rw (due, visited) (host.running-put _ (callback i s) ∙ (quiet due).running-callback s)
    | inr early ↦ rw (early, visited) (host.running-put _ s)
  ]

  get-visited :
      (now : ℕ) (r : Bool) (pre : List Schedule) (c : Schedule) (cs : List Schedule) (i : ℕ) (s : S)
      → get (visited now r pre c cs i s)
        ≡ record { now = now; schedules = (pre ++ (after_tick now r c ∷ [])) ++ cs }
  unfolding visited
  get-visited now r pre c cs i s =
      host.get-put _ _
      ∙ ap (λ l. record { now = now; schedules = l })
          (sym (append_assoc pre (after_tick now r c ∷ []) cs))

  run_due-visited :
      (now : ℕ) (r : Bool) (pre : List Schedule) (c : Schedule) (cs : List Schedule) (i : ℕ) (s : S)
      → QuietDue host now r (suc i) cs
      → run_due host now r (suc i) cs (visited now r pre c cs i s)
        ≡ put
            (record { now = now; schedules = pre ++ (after_tick now r c ∷ cs) })
            (run_due host now r (suc i) cs (if is_due now r c then callback i s else s))
  unfolding visited
  run_due-visited now r pre c cs i s quiet = run_due-put now r (suc i) cs _ _ quiet

  tick_from-quiet :
      (now : ℕ) (r : Bool) (cs pre : List Schedule) (i m : ℕ) (s : S)
      → get s ≡ record { now = now; schedules = pre ++ cs }
      → running s ≡ r
      → i ≡ length pre
      → QuietDue host now r i cs
      → tick_from host (length cs) i m s ≡ (
        put
            (record { now = now; schedules = pre ++ map (after_tick now r) cs })
            (run_due host now r i cs s),
        soonest now r cs m,
      )
  unfolding tick_from run_due soonest
  tick_from-quiet now r [] pre i m s here run at quiet =
      ap (λ t. (t, m)) (sym (ap (λ d. put d s) (sym here) ∙ host.put-get s))
  tick_from-quiet now r (c ∷ cs) pre i m s here run at quiet =
      rw (visit-quiet now r pre c cs i s here run at quiet.0, tick_from)
        (tick_from-quiet now r cs (pre ++ (after ∷ [])) (suc i) (sooner (wait now r c) m) next
            (get-visited now r pre c cs i s) (running-visited now r pre c cs i s quiet.0 ∙ run)
            (omega (arith, length-append pre (after ∷ []))) quiet.1
          ∙ ap (λ t. (t, soonest now r cs (sooner (wait now r c) m))) both)
    where
      after : Schedule
      after = after_tick now r c

      next : S
      next = visited now r pre c cs i s

      both :
          put
            (record { now = now; schedules = (pre ++ (after ∷ [])) ++ map (after_tick now r) cs })
            (run_due host now r (suc i) cs next)
          ≡ put
              (record { now = now; schedules = pre ++ (after ∷ map (after_tick now r) cs) })
              (run_due host now r (suc i) cs (if is_due now r c then callback i s else s))
      both =
          ap₂ (λ l u. put (record { now = now; schedules = l }) u)
            (append_assoc pre (after ∷ []) (map (after_tick now r) cs))
            (run_due-visited now r pre c cs i s quiet.1)
          ∙ host.put-put _ _ _

  -- A tick whose due callbacks leave the scheduler alone, whatever the others do: the clock advances modulo 2^32, exactly the enabled
  -- schedules whose interval has passed run their callback, in the order of registration, and have last
  -- run now, the others keep theirs; the result is the least time that an enabled schedule can wait, or
  -- UINT32_MAX with none enabled.
  pub tick-quiet :
      (count : ℕ) (s : S)
      → QuietDue host (add32 (get s).now count) (running s) 0 (get s).schedules
      → let now = add32 (get s).now count in
        let r = running s in
        tick host count s ≡ (
          put
              (record { now = now; schedules = map (after_tick now r) (get s).schedules })
              (run_due host now r 0 (get s).schedules s),
          soonest now r (get s).schedules no_enabled_schedule,
        )
  unfolding tick
  tick-quiet count s quiet =
      rw (ap (λ (d : Scheduler). length d.schedules) (host.get-put started s)) (
        tick_from-quiet now r (get s).schedules [] 0 no_enabled_schedule (put started s)
          (host.get-put started s) (host.running-put started s) refl quiet
        ∙ ap (λ t. (t, soonest now r (get s).schedules no_enabled_schedule))
            (ap (put (record { now = now; schedules = map (after_tick now r) (get s).schedules }))
                (run_due-put now r 0 (get s).schedules started s quiet)
              ∙ host.put-put _ _ _))
    where
      now : ℕ
      now = add32 (get s).now count

      r : Bool
      r = running s

      started : Scheduler
      started = record (get s) { now = now }
