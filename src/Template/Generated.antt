-- ===== src/Template/Generated.antt =====
-- codegen/templates/ServiceTemplate.cpp: the generated service as an implementation of the virtual methods of
-- Service, with its inputs and outputs. The checked-in files do not override GetOmittedDescription.
use xbot_framework.Prelude.{
  ℕ, ◌*◌, ◌/◌, ◌%◌, List, Option, none, Bool, true, not, ◌==◌, if◌then◌else◌, length, take,
}
use xbot_framework.Wire.Bytes.{le_bytes, le_value}
use xbot_framework.Service.State.{Service}
use xbot_framework.Service.Send.{send_data}
use xbot_framework.Service.User.{Impl, Method, done}
use xbot_framework.Template.Members.{Template, Callbacks, user_method}
use xbot_framework.Template.Registers.{
  template_set_register, template_defaults, template_registers_valid,
}
use xbot_framework.Template.Calls.{template_dispatch}
use xbot_framework.Template.Advertise.{Endpoint, template_advertise}

module _ {V : Type 0} where
  -- `handleData`; `sizeof(char)` is 1. Data for any other target is ignored.
  unfoldable pub template_handle_data : Callbacks V → ℕ → List ℕ → Method (Template V) (Unit {0})
  template_handle_data c target_id payload =
      if target_id == 0
      then (if not (length payload % 1 == 0)
          then (λ t. done (t, tt))
          else user_method (
              c.on_example_input1_changed
                (record { buffer = payload; length = length payload / 1 })))
      else if target_id == 1
      then (if not (length payload == 4)
          then (λ t. done (t, tt))
          else user_method (c.on_example_input2_changed (le_value payload)))
      else (λ t. done (t, tt))

  -- `SendExampleOutput1` and `SendExampleOutput2`
  unfoldable pub send_example_output1 :
      List ℕ → ℕ → Service (Template V) → Service (Template V) × Bool
  send_example_output1 content length = send_data 0 (take (length * 1) content)

  unfoldable pub send_example_output2 : ℕ → Service (Template V) → Service (Template V) × Bool
  send_example_output2 value = send_data 1 (le_bytes 4 value)

  abbrev pub template_service : Callbacks V → (ℕ → Option Endpoint) → Impl (Template V)
  template_service c get_endpoint = record {
    on_create = user_method c.on_create;
    on_start = user_method c.on_start;
    on_stop = user_method c.on_stop;
    on_loop = λ now last. user_method (c.on_loop now last);
    on_schedule = λ i. user_method (c.on_schedule i);
    on_transaction_start = λ timestamp. user_method (c.on_transaction_start timestamp);
    on_transaction_end = user_method c.on_transaction_end;
    handle_data = template_handle_data c;
    dispatch_rpc_call = template_dispatch c;
    load_configuration_defaults_impl = template_defaults;
    has_registers = λ t. true;
    all_registers_valid = template_registers_valid;
    set_register = template_set_register c;
    omitted_description = none;
    advertise = template_advertise get_endpoint;
  }
