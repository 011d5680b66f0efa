-- ===== src/Tests/Scheduler.antt =====
-- A tick of a claimed service: its heartbeat is due, and its discovery timeout disabled.
use xbot_framework.Prelude.{◌≡◌, refl, List, [], ◌∷◌, map, true, false, add32}
use xbot_framework.Scheduler.{Schedule, Host, own, tick, no_enabled_schedule}
use xbot_framework.Scheduler.Quiet.{IsQuietAt, QuietDue, run_due, tick-quiet}
use xbot_framework.Scheduler.Waits.{after_tick, soonest}
use xbot_framework.Service.State.{Service}
use xbot_framework.Service.Lifecycle.{advertisement_interval}
use xbot_framework.Service.Loop.{service_host, run_schedule}
use xbot_framework.Service.Status.{IsConsistent}
use xbot_framework.Service.Ticks.{claimed-QuietDue}
use xbot_framework.Tests.Fixtures.{Store, store_service, claimed}

abbrev heartbeats : Schedule
heartbeats = record { last_tick = 4294967190; interval = 100; enabled = own true }

abbrev schedules : List Schedule
schedules =
    heartbeats
    ∷ record { last_tick = 4294967290; interval = 10000000; enabled = own true }
    ∷ record { last_tick = 0; interval = 1000000; enabled = own false }
    ∷ record { last_tick = 0; interval = 60000000; enabled = own false }
    ∷ []

abbrev ticking : Service Store
ticking = record claimed {
  is_running = true;
  config_required = false;
  scheduler = record { now = 4294967290; schedules = schedules };
}

abbrev host : Host (Service Store)
host = service_host store_service

ticking-IsConsistent : IsConsistent ticking
unfolding advertisement_interval
ticking-IsConsistent = record {
  schedules_follow = (refl, refl, refl, refl, refl, refl, refl);
  running_configured = λ e. refl;
}

advert-IsQuietAt : IsQuietAt host 1
unfolding run_schedule
advert-IsQuietAt = record { callback-put = λ c s. refl; running-callback = λ s. refl }

ticking-QuietDue : QuietDue host (add32 4294967290 20) true 0 schedules
ticking-QuietDue =
    claimed-QuietDue store_service (add32 4294967290 20) ticking advert-IsQuietAt tt
      ticking-IsConsistent refl

tick-quiet_example :
    let now = add32 4294967290 20 in
    tick host 20 ticking ≡ (
      host.put
          (record { now = now; schedules = map (after_tick now true) schedules })
          (run_due host now true 0 schedules ticking),
      soonest now true schedules no_enabled_schedule,
    )
tick-quiet_example = tick-quiet host 20 ticking ticking-QuietDue
