-- ===== src/Service/Status/Running.antt =====
-- The processing thread keeps the schedules of a service in step with its status, from its first round.
use xbot_framework.Prelude.{
  ℕ, zero, suc, ◌≡◌, refl, ◌∙◌, ap, List, [], ◌∷◌, Option, none, some, Bool, true, false, if-keeps,
  sub32, if◌then◌else◌,
}
use xbot_framework.Scheduler.{Schedule, modify, stamp}
use xbot_framework.Scheduler.Steps.{IsKept, tick-keeps}
use xbot_framework.Service.State.{Service, is_claimed, started, own_schedules}
use xbot_framework.Service.User.{Impl, run_method}
use xbot_framework.Service.Lifecycle.{on_service_discovery_timeout, load_configuration_defaults}
use xbot_framework.Service.Loop.{
  Input, Thread, run_schedule, service_host, begin_processing, run_schedules, receive, round,
}
use xbot_framework.Service.Status.{IsShaped, Follows, IsConsistent}
use xbot_framework.Service.Status.Core.{
  Core, core, core-run_method, core-send_heartbeat, core-send_configuration_request,
}
use xbot_framework.Service.Status.Changes.{
  lifecycle-IsConsistent, IsConsistent-IsShaped, core-IsConsistent, core-IsShaped,
}
use xbot_framework.Service.Status.Starting.{
  run_method-IsConsistent, start_if_unconfigured-IsConsistent, load-IsConsistent,
}
use xbot_framework.Service.Status.Handling.{process_packet-IsConsistent}

stamp-Follows :
    (now i : ℕ) (cs : List Schedule) (claimed timed_out required : Bool)
    → Follows cs claimed timed_out required
    → Follows (modify (stamp now) i cs) claimed timed_out required
stamp-Follows now zero (h ∷ (a ∷ (c ∷ (t ∷ rest)))) claimed timed_out required f = f
stamp-Follows now (suc zero) (h ∷ (a ∷ (c ∷ (t ∷ rest)))) claimed timed_out required f = f
stamp-Follows now (suc (suc zero)) (h ∷ (a ∷ (c ∷ (t ∷ rest)))) claimed timed_out required f = f
stamp-Follows now (suc (suc (suc zero))) (h ∷ (a ∷ (c ∷ (t ∷ rest)))) claimed timed_out required f =
    f
stamp-Follows now (suc (suc (suc (suc i)))) (h ∷ (a ∷ (c ∷ (t ∷ rest)))) claimed timed_out required
      f =
    f
stamp-Follows now i [] claimed timed_out required f = absurd f
stamp-Follows now i (h ∷ []) claimed timed_out required f = absurd f
stamp-Follows now i (h ∷ (a ∷ [])) claimed timed_out required f = absurd f
stamp-Follows now i (h ∷ (a ∷ (c ∷ []))) claimed timed_out required f = absurd f

-- What the generated `AdvertiseServiceImpl` must leave alone: it fills the scratch buffer and sends it.
abbrev pub KeepsCore : {U : Type 0} → (Service U → Service U) → Type 0
KeepsCore {U} advertise = (s : Service U) → core (advertise s) ≡ core s

timeout-IsConsistent :
    {U : Type 0} (s : Service U) → IsConsistent s → IsConsistent (on_service_discovery_timeout s)
unfolding on_service_discovery_timeout
timeout-IsConsistent s v =
    if-keeps IsConsistent (is_claimed s) s _ (λ _. v)
      (λ _.
        lifecycle-IsConsistent (record s { sd_discovery_timed_out = true })
          (IsConsistent-IsShaped s v) v.running_configured)

-- The rounds of the loop, until the service is stopped.
unfoldable pub run_rounds : {U : Type 0} → Impl U → List Input → Thread U → Thread U
run_rounds impl [] t = t
run_rounds impl (input ∷ inputs) t = elim (round impl input t) [
  | none ↦ t
  | some t' ↦ run_rounds impl inputs t'
]

-- A loop that ends when a test holds keeps what its body keeps.
stop-keeps :
    {T : Type 0} (P : T → Type 0) (b : Bool) (next t : T) (go_on : T → T)
    → P t
    → P (go_on next)
    → P (elim (if b then none else some next) [ none ↦ t | some t' ↦ go_on t' ])
stop-keeps P true next t go_on p q = p
stop-keeps P false next t go_on p q = q

module _ {U : Type 0} (impl : Impl U) (advertises : KeepsCore impl.advertise) where
  schedule-IsConsistent :
      (i : ℕ) (s : Service U) → IsConsistent s → IsConsistent (run_schedule impl i s)
  unfolding run_schedule
  schedule-IsConsistent zero s v = core-IsConsistent s _ (core-send_heartbeat s) v
  schedule-IsConsistent (suc zero) s v = core-IsConsistent s _ (advertises s) v
  schedule-IsConsistent (suc (suc zero)) s v =
      core-IsConsistent s _ (core-send_configuration_request s) v
  schedule-IsConsistent (suc (suc (suc zero))) s v = timeout-IsConsistent s v
  schedule-IsConsistent (suc (suc (suc (suc i)))) s v =
      run_method-IsConsistent (impl.on_schedule i) s v

  kept : IsKept (service_host impl) IsConsistent
  kept = record {
    by_clock = λ now s v. record {
      schedules_follow = v.schedules_follow;
      running_configured = v.running_configured;
    };
    by_stamp = λ now i s v. record {
      schedules_follow =
          stamp-Follows now i (s.scheduler).schedules (is_claimed s) s.sd_discovery_timed_out
            s.config_required v.schedules_follow;
      running_configured = v.running_configured;
    };
    by_callback = schedule-IsConsistent;
  }

  schedules-IsConsistent :
      (now : ℕ) (t : Thread U) → IsConsistent t.service → IsConsistent (run_schedules impl now t).0
  unfolding run_schedules
  schedules-IsConsistent now t v =
      tick-keeps (service_host impl) IsConsistent kept (sub32 now t.last_tick_micros) _ (
        run_method-IsConsistent (impl.on_loop now t.last_tick_micros) _
          (core-IsConsistent t.service (record (t.service) { time_micros = now }) refl v))

  receive-IsConsistent :
      (p : Option (List ℕ)) (s : Service U) → IsConsistent s → IsConsistent (receive impl p s)
  receive-IsConsistent none s v = v
  receive-IsConsistent (some packet) s v = process_packet-IsConsistent impl packet s v

  rounds-IsConsistent :
      (inputs : List Input) (t : Thread U)
      → IsConsistent t.service
      → IsConsistent (run_rounds impl inputs t).service
  unfolding run_rounds round
  rounds-IsConsistent [] t v = v
  rounds-IsConsistent (input ∷ inputs) t v =
      stop-keeps (λ (u : Thread U). IsConsistent u.service) (t.service).stopped next t
        (run_rounds impl inputs) v
        (rounds-IsConsistent inputs next (
          receive-IsConsistent input.packet (run_schedules impl input.now t).0
            (schedules-IsConsistent input.now t v)))
    where
      next : Thread U
      next = record {
        service = receive impl input.packet (run_schedules impl input.now t).0;
        last_tick_micros = input.now;
      }

  begin-IsConsistent :
      (s : Service U)
      → IsShaped (s.scheduler).schedules
      → s.is_running ≡ false
      → IsConsistent (begin_processing impl s).service
  unfolding begin_processing
  begin-IsConsistent s shaped stands =
      let created = (run_method impl.on_create s).0 in
      start_if_unconfigured-IsConsistent impl (load_configuration_defaults impl created) (
        (load-IsConsistent impl created
          (core-IsShaped s created (core-run_method impl.on_create s) shaped)
          (ap (λ (k : Core). k.is_running) (core-run_method impl.on_create s) ∙ stands)).0)

  -- Any number of rounds of the processing thread after a start, with any packets at any times and any schedules
  -- that the user added, leaves a
  -- service whose schedules follow its status and which runs only when it requires no configuration. The
  -- generated advertisement is assumed to leave the scheduler, the target and the status alone.
  pub run_rounds-IsConsistent :
      (service_id : ℕ) (extra : List Schedule) (u : U) (inputs : List Input)
      → IsConsistent
          (run_rounds impl inputs (begin_processing impl (started service_id extra u))).service
  unfolding started own_schedules
  run_rounds-IsConsistent service_id extra u inputs = rounds-IsConsistent inputs _ (
      begin-IsConsistent (started service_id extra u)
        ((false, refl), refl, (false, refl), refl, (false, refl), refl) refl)
