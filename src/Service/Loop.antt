-- ===== src/Service/Loop.antt =====
-- Service.cpp: the processing thread.
use xbot_framework.Prelude.{ℕ, refl, zero, suc, List, Option, none, some, ltb, if◌then◌else◌, sub32}
use xbot_framework.Scheduler.{Host, tick}
use xbot_framework.Service.State.{Service}
use xbot_framework.Service.Send.{send_heartbeat, send_configuration_request}
use xbot_framework.Service.User.{Impl, run_method}
use xbot_framework.Service.Lifecycle.{
  on_service_discovery_timeout, load_configuration_defaults, start_if_unconfigured,
}
use xbot_framework.Service.Handlers.{process_packet}

-- What the environment gives to one round of the loop: the time, and the packet that the queue hands out
-- before the block time is over, if any.
pub record Input : Type 0 where
  pub now : ℕ
  pub packet : Option (List ℕ)

-- The local variables that live across rounds.
pub record Thread (U : Type 0) : Type 0 where
  pub service : Service U
  pub last_tick_micros : ℕ

module _ {U : Type 0} (impl : Impl U) where
  -- The callbacks of the four schedules of a service, and those of the schedules that a user adds.
  unfoldable pub run_schedule : ℕ → Service U → Service U
  run_schedule zero s = send_heartbeat s
  run_schedule (suc zero) s = impl.advertise s
  run_schedule (suc (suc zero)) s = send_configuration_request s
  run_schedule (suc (suc (suc zero))) s = on_service_discovery_timeout s
  run_schedule (suc (suc (suc (suc i)))) s = (run_method (impl.on_schedule i) s).0

  abbrev pub service_host : Host (Service U)
  service_host = record {
    get = λ s. s.scheduler;
    put = λ c s. record s { scheduler = c };
    running = λ s. s.is_running;
    callback = run_schedule;
    get-put = λ c s. refl;
    put-put = λ c d s. refl;
    put-get = λ s. refl;
    running-put = λ c s. refl;
  }

  -- `runProcessing` before its loop.
  unfoldable pub begin_processing : Service U → Thread U
  begin_processing s =
      let created = (run_method impl.on_create s).0 in
      let ready = start_if_unconfigured impl (load_configuration_defaults impl created) in
      record { service = ready; last_tick_micros = ready.time_micros }

  -- The time to wait for a packet: the shorter of two, and a second at most.
  unfoldable pub block_time : ℕ → ℕ → ℕ
  block_time on_loop_block_time scheduler_block_time =
      let least =
        if ltb on_loop_block_time scheduler_block_time
        then on_loop_block_time
        else scheduler_block_time in
      if ltb 1000000 least then 1000000 else least

  -- The user's hook and the schedules that are due, with the block time.
  unfoldable pub run_schedules : ℕ → Thread U → Service U × ℕ
  run_schedules now t =
      let (looped, on_loop_block_time) =
        run_method (impl.on_loop now t.last_tick_micros)
          (record (t.service) { time_micros = now }) in
      let (ticked, scheduler_block_time) =
        tick service_host (sub32 now t.last_tick_micros) looped in
      (ticked, block_time on_loop_block_time scheduler_block_time)

  abbrev pub receive : Option (List ℕ) → Service U → Service U
  receive none s = s
  receive (some packet) s = process_packet impl packet s

  -- One round of the loop; `none` once the service is stopped.
  unfoldable pub round : Input → Thread U → Option (Thread U)
  round input t =
      if (t.service).stopped
      then none
      else some (record {
        service = receive input.packet (run_schedules input.now t).0;
        last_tick_micros = input.now;
      })
