-- ===== src/Service/State.antt =====
-- libxbot-service/include/xbot-service/Service.hpp and the constants of include/xbot/config.hpp: the
-- members of a service. The members that the generated subclass adds are `user`. What the service hands
-- to the socket is kept in `sent`, the newest first; `getTimeMicros` reads `time_micros`, which the
-- environment sets; `locks` counts how often the processing thread holds `state_mutex_` between calls.
use xbot_framework.Prelude.{ℕ, ◌-◌, List, [], ◌++◌, Bool, true, false, not, ◌&&◌, ◌==◌, replicate}
use xbot_framework.Wire.Header.{Header, empty_header, header_size}
use xbot_framework.Portable.Packet.{Datagram, max_packet_size}
use xbot_framework.Scheduler.{Schedule, Scheduler, empty_scheduler, add_schedule, own}

abbrev pub sd_advertisement_interval_micros : ℕ
sd_advertisement_interval_micros = 10000000

abbrev pub sd_advertisement_interval_micros_fast : ℕ
sd_advertisement_interval_micros_fast = 1000000

abbrev pub sd_discovery_timeout_micros : ℕ
sd_discovery_timeout_micros = 60000000

abbrev pub request_configuration_interval_micros : ℕ
request_configuration_interval_micros = 1000000

abbrev pub heartbeat_jitter : ℕ
heartbeat_jitter = 100000

-- `sizeof(scratch_buffer_)`
abbrev pub scratch_size : ℕ
scratch_size = max_packet_size - header_size

-- The places of the service's own schedules in its scheduler.
abbrev pub heartbeat_schedule : ℕ
heartbeat_schedule = 0

abbrev pub sd_advertisement_schedule : ℕ
sd_advertisement_schedule = 1

abbrev pub config_request_schedule : ℕ
config_request_schedule = 2

abbrev pub sd_discovery_timeout_schedule : ℕ
sd_discovery_timeout_schedule = 3

pub record Service (U : Type 0) : Type 0 where
  pub service_id : ℕ
  pub stopped : Bool
  pub scratch_buffer : List ℕ
  pub scratch_buffer_fill : ℕ
  pub transaction_started : Bool
  pub header : Header
  pub scheduler : Scheduler
  pub target_ip : ℕ
  pub target_port : ℕ
  pub config_required : Bool
  pub sd_discovery_timed_out : Bool
  pub is_running : Bool
  pub rpc_in_progress : Bool
  pub rpc_pending_call_id : ℕ
  pub rpc_max_response_size : ℕ
  pub last_description_part_micros : ℕ
  pub locks : ℕ
  pub time_micros : ℕ
  pub sent : List Datagram
  pub user : U

-- The four schedules of a service, registered by their constructors in the order of the members.
unfoldable pub own_schedules : Scheduler
unfolding add_schedule
own_schedules =
    add_schedule
      (record { last_tick = 0; interval = sd_discovery_timeout_micros; enabled = own false })
      (add_schedule
        (record {
          last_tick = 0;
          interval = request_configuration_interval_micros;
          enabled = own false;
        })
        (add_schedule (record { last_tick = 0; interval = 0; enabled = own true })
          (add_schedule (record { last_tick = 0; interval = 0; enabled = own false })
            empty_scheduler)))

-- The constructor, followed by the part of `start` that sets members. The schedules that members of the
-- subclass add to the scheduler come behind the service's own.
unfoldable pub started : {U : Type 0} → ℕ → List Schedule → U → Service U
started service_id extra user = record {
  service_id = service_id;
  stopped = false;
  scratch_buffer = replicate scratch_size 0;
  scratch_buffer_fill = 0;
  transaction_started = false;
  header = record empty_header { flags = 1 };
  scheduler = record own_schedules { schedules = own_schedules.schedules ++ extra };
  target_ip = 0;
  target_port = 0;
  config_required = true;
  sd_discovery_timed_out = false;
  is_running = false;
  rpc_in_progress = false;
  rpc_pending_call_id = 0;
  rpc_max_response_size = 0;
  last_description_part_micros = 0;
  locks = 0;
  time_micros = 0;
  sent = [];
  user = user;
}

-- `IsClaimed`
abbrev pub is_claimed : {U : Type 0} → Service U → Bool
is_claimed s = not (s.target_ip == 0) && not (s.target_port == 0)
