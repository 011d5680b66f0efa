-- ===== src/Template/Registers.antt =====
-- codegen/templates/ServiceTemplate.cpp: the registers of the generated service.
pub mod Sent
pub mod Configured
pub mod Incomplete
use xbot_framework.Prelude.{
  ℕ, ◌%◌, List, Bool, true, false, not, ◌||◌, ◌&&◌, ◌==◌, ltb, if◌then◌else◌, length,
}
use xbot_framework.Wire.Bytes.{le_value}
use xbot_framework.Service.Send.{write_at}
use xbot_framework.Service.User.{Prog, done, Method}
use xbot_framework.Template.Members.{
  Template, Protected, ArrayRegister, WordRegister, Callbacks, register1_size, user_method,
}

module _ {V : Type 0} where
  -- `allRegistersValid`: Register3 is a blob and Register4 is optional.
  unfoldable pub template_registers_valid : Template V → Bool
  template_registers_valid t = (t.protected).register1.valid && (t.protected).register2.valid

  -- `loadConfigurationDefaultsImpl`: no register has a default.
  unfoldable pub template_defaults : Template V → Template V
  template_defaults t =
      let p = t.protected in
      record t {
        protected = record p {
          register1 = record p.register1 { valid = false };
          register2 = record p.register2 { valid = false };
          register4_optional = record p.register4_optional { valid = false };
        };
      }

  -- The cases of the switch in `setRegister`. `sizeof(char)` is 1.
  unfoldable pub set_register1 : List ℕ → Method (Template V) Bool
  set_register1 payload t =
      if not (length payload % 1 == 0) || ltb register1_size (length payload)
      then done (t, false)
      else done (
        record t {
          protected = record (t.protected) {
            register1 = record {
              value = write_at (t.protected).register1.value 0 payload;
              length = length payload;
              valid = true;
            };
          };
        },
        true,
      )

  unfoldable pub set_register2 : List ℕ → Method (Template V) Bool
  set_register2 payload t =
      if not (length payload == 4)
      then done (t, false)
      else done (
        record t {
          protected = record (t.protected) {
            register2 = record { value = le_value payload; valid = true };
          };
        },
        true,
      )

  unfoldable pub set_register4 : List ℕ → Method (Template V) Bool
  set_register4 payload t =
      if not (length payload == 4)
      then done (t, false)
      else done (
        record t {
          protected = record (t.protected) {
            register4_optional = record { value = le_value payload; valid = true };
          };
        },
        true,
      )

  -- `setRegister`; a register that does not exist is accepted.
  unfoldable pub template_set_register : Callbacks V → ℕ → List ℕ → Method (Template V) Bool
  template_set_register c target_id payload =
      if target_id == 0
      then set_register1 payload
      else if target_id == 1
      then set_register2 payload
      else if target_id == 2
      then user_method (c.on_register_register3_changed payload)
      else if target_id == 3
      then set_register4 payload
      else (λ t. done (t, true))
