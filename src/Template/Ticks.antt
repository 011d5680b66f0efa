-- ===== src/Template/Ticks.antt =====
-- The generated service in the ticks of its scheduler.
use xbot_framework.Scheduler.{Scheduler}
use xbot_framework.Service.State.{Service}
use xbot_framework.Template.Members.{Template}
