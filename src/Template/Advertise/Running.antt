-- ===== src/Template/Advertise/Running.antt =====
-- The generated service in the processing thread: its advertisement needs no assumption.
use xbot_framework.Prelude.{
  ℕ, suc, ◌≡◌, refl, List, Option, none, some, leb, if◌then◌else◌, if-keeps, length,
}
use xbot_framework.Scheduler.{Schedule}
use xbot_framework.Service.State.{Service, started}
use xbot_framework.Service.Send.{transmit, write_at}
use xbot_framework.Service.Loop.{Input, begin_processing}
use xbot_framework.Service.Status.{IsConsistent}
use xbot_framework.Service.Status.Core.{core}
use xbot_framework.Service.Status.Running.{run_rounds, run_rounds-IsConsistent}
use xbot_framework.Template.Members.{Template, Callbacks, new_template}
use xbot_framework.Template.Advertise.{
  Endpoint, template_advertise, send_advertisement, advertisement_start,
}
use xbot_framework.Template.Generated.{template_service}

module _ {V : Type 0} (get_endpoint : ℕ → Option Endpoint) where
  pub template_advertise-KeepsCore :
      (s : Service (Template V)) → core (template_advertise get_endpoint s) ≡ core s
  unfolding template_advertise send_advertisement transmit
  template_advertise-KeepsCore s = by_endpoint (get_endpoint s.time_micros)
    where
      by_endpoint :
          (o : Option Endpoint)
          → core (elim o [
            | none ↦ record s {
              scratch_buffer = write_at s.scratch_buffer 0 (advertisement_start s.service_id);
            }
            | some e ↦
                if leb 16 (length e.address)
                then record s {
                  scratch_buffer = write_at s.scratch_buffer 0 (advertisement_start s.service_id);
                }
                else send_advertisement e s
          ])
            ≡ core s
      by_endpoint none = refl
      by_endpoint (some e) =
          if-keeps (λ (t : Service (Template V)). core t ≡ core s) (leb 16 (length e.address)) _ _
            (λ _. refl) (λ _. refl)

  -- Any number of rounds of the processing thread of a generated service after its start, with any packets at
  -- any times, any schedules that the user added, any
  -- user code in its virtual methods and any answers of getEndpoint, leaves a service whose
  -- schedules follow its status and which runs only when it requires no configuration.
  pub template_rounds-IsConsistent :
      (c : Callbacks V) (service_id : ℕ) (extra : List Schedule) (v : V) (inputs : List Input)
      → let impl = template_service c get_endpoint in
        IsConsistent
          (run_rounds impl inputs
            (begin_processing impl (started service_id extra (new_template v)))).service
  template_rounds-IsConsistent c service_id extra v inputs =
      run_rounds-IsConsistent (template_service c get_endpoint) template_advertise-KeepsCore
        service_id extra (new_template v) inputs

-- A service that has sent a number of advertisements since its construction; whatever else happens to it leaves
-- the two private members alone.
pub data HasSent {V : Type 0} : ℕ → Service (Template V) → Type 0 where
  constructed :
      (service_id : ℕ) (extra : List Schedule) (v : V)
      → HasSent 0 (started service_id extra (new_template v))
  advertises :
      (n : ℕ) (s : Service (Template V)) (e : Endpoint)
      → HasSent n s
      → HasSent (suc n) (send_advertisement e s)
  goes_on :
      (n : ℕ) (s s' : Service (Template V))
      → HasSent n s
      → (s'.user).sd_sequence ≡ (s.user).sd_sequence
      → (s'.user).reboot ≡ (s.user).reboot
      → HasSent n s'
