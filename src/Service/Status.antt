-- ===== src/Service/Status.antt =====
-- The schedules of a service against its status: whether it is claimed, configured and timed out.
pub mod Core
pub mod Changes
pub mod Starting
pub mod Handling
pub mod Running
use xbot_framework.Prelude.{ℕ, ◌+◌, ◌≡◌, List, [], ◌∷◌, Bool, true, false, not, ◌&&◌}
use xbot_framework.Scheduler.{Schedule, Enabled, own}
use xbot_framework.Service.State.{
  Service, is_claimed, sd_discovery_timeout_micros, request_configuration_interval_micros,
}
use xbot_framework.Service.Lifecycle.{advertisement_interval}

-- The service's own schedules stand first, with flags of their own; the advertisement is always enabled,
-- and two of the intervals never change.
abbrev pub IsShaped : List Schedule → Type 0
IsShaped (h ∷ (a ∷ (c ∷ (t ∷ rest)))) =
    ((b : Bool) × (h.enabled ≡ own b))
    × (a.enabled ≡ own true)
    × ((b : Bool) × (c.enabled ≡ own b))
    × (c.interval ≡ request_configuration_interval_micros)
    × ((b : Bool) × (t.enabled ≡ own b))
    × (t.interval ≡ sd_discovery_timeout_micros)
IsShaped _ = ⊥

-- The schedules that a status asks for: heartbeats while claimed; advertisements always, slow once
-- claimed or timed out; configuration requests while claimed and not configured; the discovery timeout
-- while neither claimed nor timed out.
abbrev pub Follows : List Schedule → Bool → Bool → Bool → Type 0
Follows (h ∷ (a ∷ (c ∷ (t ∷ rest)))) claimed timed_out required =
    (h.enabled ≡ own claimed)
    × (a.enabled ≡ own true)
    × (a.interval ≡ advertisement_interval claimed timed_out)
    × (c.enabled ≡ own (required && claimed))
    × (c.interval ≡ request_configuration_interval_micros)
    × (t.enabled ≡ own (not claimed && not timed_out))
    × (t.interval ≡ sd_discovery_timeout_micros)
Follows _ _ _ _ = ⊥

module _ {U : Type 0} where
  pub record IsConsistent (s : Service U) : Type 0 where
    pub schedules_follow :
        Follows (s.scheduler).schedules (is_claimed s) s.sd_discovery_timed_out s.config_required
    pub running_configured : s.is_running ≡ true → s.config_required ≡ false

pub Follows-IsShaped :
    (cs : List Schedule) (claimed timed_out required : Bool)
    → Follows cs claimed timed_out required
    → IsShaped cs
Follows-IsShaped (h ∷ (a ∷ (c ∷ (t ∷ rest)))) claimed timed_out required f =
    ((claimed, f.0), f.1, (required && claimed, f.3), f.4, (not claimed && not timed_out, f.5), f.6)
Follows-IsShaped [] claimed timed_out required f = absurd f
Follows-IsShaped (h ∷ []) claimed timed_out required f = absurd f
Follows-IsShaped (h ∷ (a ∷ [])) claimed timed_out required f = absurd f
Follows-IsShaped (h ∷ (a ∷ (c ∷ []))) claimed timed_out required f = absurd f
