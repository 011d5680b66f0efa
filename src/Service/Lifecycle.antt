-- ===== src/Service/Lifecycle.antt =====
-- Service.cpp: starting, stopping and configuring a service, and the schedules that follow from it.
use xbot_framework.Prelude.{ℕ, ◌/◌, Bool, true, false, not, ◌&&◌, ◌||◌, ltb, if◌then◌else◌, sub32}
use xbot_framework.Scheduler.{set_enabled, set_interval}
use xbot_framework.Service.State.{
  Service, is_claimed, sd_advertisement_interval_micros, sd_advertisement_interval_micros_fast,
  heartbeat_schedule, sd_advertisement_schedule, config_request_schedule,
  sd_discovery_timeout_schedule, heartbeat_jitter,
}
use xbot_framework.Service.User.{Impl, run_method}

-- The interval between advertisements: slow once the service is claimed or nobody has claimed it in time.
unfoldable pub advertisement_interval : Bool → Bool → ℕ
advertisement_interval claimed timed_out =
    if claimed || timed_out
    then sd_advertisement_interval_micros
    else sd_advertisement_interval_micros_fast

module _ {U : Type 0} where
  unfoldable pub on_lifecycle_status_changed : Service U → Service U
  on_lifecycle_status_changed s =
      let claimed = is_claimed s in
      let heartbeats = set_enabled heartbeat_schedule claimed true s.scheduler in
      let adverts =
        set_interval sd_advertisement_schedule
          (advertisement_interval claimed s.sd_discovery_timed_out) true heartbeats in
      let timeout =
        set_enabled sd_discovery_timeout_schedule (not claimed && not s.sd_discovery_timed_out) true
          adverts in
      record s {
        scheduler = set_enabled config_request_schedule (s.config_required && claimed) true timeout;
      }

  unfoldable pub on_service_discovery_timeout : Service U → Service U
  on_service_discovery_timeout s =
      if is_claimed s
      then s
      else on_lifecycle_status_changed (record s { sd_discovery_timed_out = true })

  unfoldable pub clear_rpc : Service U → Service U
  clear_rpc s = record s {
    rpc_in_progress = false;
    rpc_pending_call_id = 0;
    rpc_max_response_size = 0;
  }

  module _ (impl : Impl U) where
    -- `Start`; not to be confused with `start`, which creates the thread.
    unfoldable pub start_service : Service U → Service U × Bool
    start_service s =
        let (s', ready) = run_method impl.on_start s in
        if ready
        then (on_lifecycle_status_changed (record s' { is_running = true }), true)
        else (s', false)

    -- `Stop`
    unfoldable pub stop_service : Service U → Service U
    stop_service s =
        on_lifecycle_status_changed
          (clear_rpc (record (run_method impl.on_stop s).0 { is_running = false }))

    unfoldable pub stop_if_running : Service U → Service U
    stop_if_running s = if s.is_running then stop_service s else s

    -- `loadConfigurationDefaults`
    unfoldable pub load_configuration_defaults : Service U → Service U
    load_configuration_defaults s =
        let u = impl.load_configuration_defaults_impl s.user in
        on_lifecycle_status_changed (record s { user = u; config_required = impl.has_registers u })

    -- `!config_required_ && Start()`
    unfoldable pub start_if_unconfigured : Service U → Service U
    start_if_unconfigured s = if s.config_required then s else (start_service s).0

-- `CalculateHeartbeatInterval`
unfoldable pub calculate_heartbeat_interval : ℕ → ℕ
calculate_heartbeat_interval heartbeat_micros =
    (if ltb heartbeat_jitter heartbeat_micros
      then sub32 heartbeat_micros heartbeat_jitter
      else heartbeat_micros)
    / 2
