-- ===== src/Service/Status/Starting.antt =====
-- Starting and stopping a service keeps its schedules in step with its status.
use mathlib.Core.Bool.{false≢true}
use xbot_framework.Prelude.{◌≡◌, refl, ◌∙◌, ap, sym, true, false, Bool-cases, if-keeps, inl, inr}
use xbot_framework.Service.State.{Service}
use xbot_framework.Service.User.{Impl, Method, run_method}
use xbot_framework.Service.Lifecycle.{
  on_lifecycle_status_changed, clear_rpc, start_service, stop_service, stop_if_running,
  load_configuration_defaults, start_if_unconfigured,
}
use xbot_framework.Service.Status.{IsShaped, IsConsistent}
use xbot_framework.Service.Status.Core.{Core, core, core-run_method}
use xbot_framework.Service.Status.Changes.{
  lifecycle-IsConsistent, IsConsistent-IsShaped, core-IsConsistent, core-IsShaped,
}

module _ {U : Type 0} where
  abbrev pub HasShape : Service U → Type 0
  HasShape s = IsShaped (s.scheduler).schedules

  pub run_method-IsConsistent :
      {R : Type 0} (m : Method U R) (s : Service U)
      → IsConsistent s
      → IsConsistent (run_method m s).0
  run_method-IsConsistent m s v = core-IsConsistent s (run_method m s).0 (core-run_method m s) v

  clear-core : (s : Service U) → core (clear_rpc s) ≡ core s
  unfolding clear_rpc
  clear-core s = refl

  module _ (impl : Impl U) where
    -- Stopping gives a service that does not run; its schedules follow its status.
    stop_service-IsConsistent :
        (s : Service U)
        → IsConsistent s
        → IsConsistent (stop_service impl s) × ((stop_service impl s).is_running ≡ false)
    unfolding stop_service clear_rpc
    stop_service-IsConsistent s v = (
      lifecycle-IsConsistent
          (clear_rpc (record ((run_method impl.on_stop s).0) { is_running = false }))
          (core-IsShaped s (run_method impl.on_stop s).0 (core-run_method impl.on_stop s)
            (IsConsistent-IsShaped s v))
          (λ e. cc),
      unfold on_lifecycle_status_changed in refl,
    )

    pub stop_if_running-IsConsistent :
        (s : Service U)
        → IsConsistent s
        → IsConsistent (stop_if_running impl s) × ((stop_if_running impl s).is_running ≡ false)
    unfolding stop_if_running
    stop_if_running-IsConsistent s v =
        if-keeps (λ t. IsConsistent t × (t.is_running ≡ false)) s.is_running (stop_service impl s) s
          (λ runs. stop_service-IsConsistent s v) (λ stands. (v, stands))

    -- A start needs no configuration, or is marked as configured later.
    start_service-IsConsistent :
        (s : Service U)
        → IsConsistent s
        → s.config_required ≡ false
        → IsConsistent (start_service impl s).0
    unfolding start_service
    start_service-IsConsistent s v free = elim (Bool-cases (run_method impl.on_start s).1) [
      | inr failed ↦ rw failed (run_method-IsConsistent impl.on_start s v)
      | inl ready ↦ rw ready (
          lifecycle-IsConsistent (record ((run_method impl.on_start s).0) { is_running = true })
            (core-IsShaped s (run_method impl.on_start s).0 (core-run_method impl.on_start s)
              (IsConsistent-IsShaped s v))
            (λ _. ap (λ (c : Core). c.config_required) (core-run_method impl.on_start s) ∙ free))
    ]

    pub load-IsConsistent :
        (s : Service U)
        → HasShape s
        → s.is_running ≡ false
        → IsConsistent (load_configuration_defaults impl s)
          × ((load_configuration_defaults impl s).is_running ≡ false)
    unfolding load_configuration_defaults
    load-IsConsistent s h stands =
        let u = impl.load_configuration_defaults_impl s.user in
        (
          lifecycle-IsConsistent (record s { user = u; config_required = impl.has_registers u }) h
              (λ runs. absurd (false≢true (sym stands ∙ runs))),
          unfold on_lifecycle_status_changed in stands,
        )

    pub start_if_unconfigured-IsConsistent :
        (s : Service U) → IsConsistent s → IsConsistent (start_if_unconfigured impl s)
    unfolding start_if_unconfigured
    start_if_unconfigured-IsConsistent s v =
        if-keeps IsConsistent s.config_required s (start_service impl s).0 (λ _. v)
          (start_service-IsConsistent s v)
