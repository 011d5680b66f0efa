-- ===== src/Service/Status/Changes.antt =====
-- A change of status is followed by the schedules that it asks for.
use xbot_framework.Prelude.{
  ℕ, ◌≡◌, ◌∙◌, sym, subst, List, [], ◌∷◌, Bool, true, false, not, ◌&&◌, ◌==◌, arith,
}
use xbot_framework.Scheduler.{
  Schedule, own, modify, with_interval, with_enabled, set_interval, set_enabled,
}
use xbot_framework.Service.State.{Service, is_claimed}
use xbot_framework.Service.Lifecycle.{on_lifecycle_status_changed, advertisement_interval}
use xbot_framework.Service.Status.{IsShaped, Follows, IsConsistent, Follows-IsShaped}
use xbot_framework.Service.Status.Core.{Core, core}

enabled-with_enabled :
    (now : ℕ) (b : Bool) (c : Schedule) (f : Bool)
    → c.enabled ≡ own f
    → (with_enabled now b true c).enabled ≡ own b
unfolding with_enabled
enabled-with_enabled now b c f e = ground arith

interval-with_enabled :
    (now : ℕ) (b : Bool) (c : Schedule) → (with_enabled now b true c).interval ≡ c.interval
unfolding with_enabled
interval-with_enabled now b c = ground arith

interval-with_interval : (now n : ℕ) (c : Schedule) → (with_interval now n true c).interval ≡ n
unfolding with_interval
interval-with_interval now n c = ground arith

enabled-with_interval :
    (now n : ℕ) (c : Schedule) → (with_interval now n true c).enabled ≡ c.enabled
unfolding with_interval
enabled-with_interval now n c = ground arith

-- The four changes of a status, on the list of schedules.
abbrev restatus : ℕ → Bool → Bool → Bool → List Schedule → List Schedule
restatus now claimed timed_out required cs =
    modify (with_enabled now (required && claimed) true) 2 (
      modify (with_enabled now (not claimed && not timed_out) true) 3 (
        modify (with_interval now (advertisement_interval claimed timed_out) true) 1
          (modify (with_enabled now claimed true) 0 cs)))

restatus-Follows :
    (now : ℕ) (claimed timed_out required : Bool) (cs : List Schedule)
    → IsShaped cs
    → Follows (restatus now claimed timed_out required cs) claimed timed_out required
restatus-Follows now claimed timed_out required (h ∷ (a ∷ (c ∷ (t ∷ rest)))) f = (
  enabled-with_enabled now claimed h f.0.0 f.0.1,
  enabled-with_interval now _ a ∙ f.1,
  interval-with_interval now _ a,
  enabled-with_enabled now (required && claimed) c f.2.0 f.2.1,
  interval-with_enabled now (required && claimed) c ∙ f.3,
  enabled-with_enabled now (not claimed && not timed_out) t f.4.0 f.4.1,
  interval-with_enabled now (not claimed && not timed_out) t ∙ f.5,
)
restatus-Follows now claimed timed_out required [] f = absurd f
restatus-Follows now claimed timed_out required (h ∷ []) f = absurd f
restatus-Follows now claimed timed_out required (h ∷ (a ∷ [])) f = absurd f
restatus-Follows now claimed timed_out required (h ∷ (a ∷ (c ∷ []))) f = absurd f

pub heartbeat-IsShaped :
    (now n : ℕ) (cs : List Schedule)
    → IsShaped cs
    → IsShaped (modify (with_interval now n true) 0 cs)
heartbeat-IsShaped now n (h ∷ (a ∷ (c ∷ (t ∷ rest)))) f =
    ((f.0.0, enabled-with_interval now n h ∙ f.0.1), f.1, f.2, f.3, f.4, f.5)
heartbeat-IsShaped now n [] f = absurd f
heartbeat-IsShaped now n (h ∷ []) f = absurd f
heartbeat-IsShaped now n (h ∷ (a ∷ [])) f = absurd f
heartbeat-IsShaped now n (h ∷ (a ∷ (c ∷ []))) f = absurd f

module _ {U : Type 0} where
  pub lifecycle-Follows :
      (s : Service U)
      → IsShaped (s.scheduler).schedules
      → Follows
          ((on_lifecycle_status_changed s).scheduler).schedules
          (is_claimed s)
          s.sd_discovery_timed_out
          s.config_required
  unfolding on_lifecycle_status_changed set_enabled set_interval
  lifecycle-Follows s shaped =
      restatus-Follows (s.scheduler).now (is_claimed s) s.sd_discovery_timed_out s.config_required
        (s.scheduler).schedules shaped

  -- After `OnLifecycleStatusChanged` the schedules follow the status, whatever they were.
  pub lifecycle-IsConsistent :
      (s : Service U)
      → IsShaped (s.scheduler).schedules
      → (s.is_running ≡ true → s.config_required ≡ false)
      → IsConsistent (on_lifecycle_status_changed s)
  lifecycle-IsConsistent s shaped running = record {
    schedules_follow = unfold on_lifecycle_status_changed in (lifecycle-Follows s shaped);
    running_configured = unfold on_lifecycle_status_changed in running;
  }

  pub IsConsistent-IsShaped : (s : Service U) → IsConsistent s → IsShaped (s.scheduler).schedules
  IsConsistent-IsShaped s v =
      Follows-IsShaped (s.scheduler).schedules (is_claimed s) s.sd_discovery_timed_out
        s.config_required v.schedules_follow

  -- The invariant speaks of the core alone.
  pub core-IsConsistent : (s t : Service U) → core t ≡ core s → IsConsistent s → IsConsistent t
  core-IsConsistent s t e v = record {
    schedules_follow = subst following (sym e) v.schedules_follow;
    running_configured = subst configured (sym e) v.running_configured;
  }
    where
      following : Core → Type 0
      following c =
          Follows (c.scheduler).schedules (not (c.target_ip == 0) && not (c.target_port == 0))
            c.sd_discovery_timed_out c.config_required

      configured : Core → Type 0
      configured c = c.is_running ≡ true → c.config_required ≡ false

  pub core-IsShaped :
      (s t : Service U)
      → core t ≡ core s
      → IsShaped (s.scheduler).schedules
      → IsShaped (t.scheduler).schedules
  core-IsShaped s t e h = subst (λ (c : Core). IsShaped (c.scheduler).schedules) (sym e) h
