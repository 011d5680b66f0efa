-- ===== src/Service/Ticks.antt =====
-- Service.cpp: the ticks of the scheduler in the processing thread of a claimed service.
use xbot_framework.Prelude.{
  ℕ, ◌≡◌, refl, ap, sym, subst, ◌∙◌, List, [], ◌∷◌, Bool, true, true≢false, not, ◌&&◌, leb, sub32,
  ◌==◌,
}
use xbot_framework.Scheduler.{Schedule, Enabled, flag_of}
use xbot_framework.Scheduler.Quiet.{IsQuietAt, QuietDue}
use xbot_framework.Service.State.{Service, is_claimed}
use xbot_framework.Service.Send.{
  send_heartbeat, send_configuration_request, send_with, transmit, fill_header,
}
use xbot_framework.Service.User.{Impl}
use xbot_framework.Service.Loop.{service_host, run_schedule}
use xbot_framework.Service.Status.{IsConsistent, Follows}

-- The schedules that a user adds.
abbrev pub own_rest : List Schedule → List Schedule
own_rest (h ∷ (a ∷ (c ∷ (t ∷ rest)))) = rest
own_rest _ = []

module _ {U : Type 0} (impl : Impl U) where
  heartbeat-IsQuietAt : IsQuietAt (service_host impl) 0
  unfolding run_schedule send_heartbeat send_with transmit fill_header
  heartbeat-IsQuietAt = record { callback-put = λ c s. refl; running-callback = λ s. refl }

  request-IsQuietAt : IsQuietAt (service_host impl) 2
  unfolding run_schedule send_configuration_request send_with transmit fill_header
  request-IsQuietAt = record { callback-put = λ c s. refl; running-callback = λ s. refl }

  -- Once a service is claimed, the discovery timeout is not due.
  Follows-QuietDue :
      (now : ℕ) (r timed_out required : Bool) (cs : List Schedule)
      → IsQuietAt (service_host impl) 1
      → QuietDue (service_host impl) now r 4 (own_rest cs)
      → Follows cs true timed_out required
      → QuietDue (service_host impl) now r 0 cs
  Follows-QuietDue now r timed_out required (h ∷ (a ∷ (c ∷ (t ∷ rest)))) advert users f = (
    λ _. heartbeat-IsQuietAt,
    (
      λ _. advert,
      (
        λ _. request-IsQuietAt,
        (
          λ due. absurd (
              true≢false (
                sym due
                ∙ ap
                    (λ (e : Enabled).
                      (flag_of r e && not (t.interval == 0))
                      && leb t.interval (sub32 now t.last_tick))
                    f.5)),
          users,
        ),
      ),
    ),
  )
  Follows-QuietDue now r timed_out required [] advert users f = absurd f
  Follows-QuietDue now r timed_out required (h ∷ []) advert users f = absurd f
  Follows-QuietDue now r timed_out required (h ∷ (a ∷ [])) advert users f = absurd f
  Follows-QuietDue now r timed_out required (h ∷ (a ∷ (c ∷ []))) advert users f = absurd f

  pub claimed-QuietDue :
      (now : ℕ) (s : Service U)
      → IsQuietAt (service_host impl) 1
      → QuietDue (service_host impl) now s.is_running 4 (own_rest (s.scheduler).schedules)
      → IsConsistent s
      → is_claimed s ≡ true
      → QuietDue (service_host impl) now s.is_running 0 (s.scheduler).schedules
  claimed-QuietDue now s advert users v claimed =
      Follows-QuietDue now s.is_running s.sd_discovery_timed_out s.config_required
        (s.scheduler).schedules advert users
        (subst
          (λ (b : Bool).
            Follows (s.scheduler).schedules b s.sd_discovery_timed_out s.config_required)
          claimed v.schedules_follow)
