-- ===== src/Template/Members.antt =====
-- codegen/templates/ServiceTemplate.hpp, as the generator left it: the members that the generated service adds
-- to Service, and the virtual methods that the user's class gives. A float is the pattern of its 32 bits.
use xbot_framework.Prelude.{ℕ, List, Bool, true, false, replicate}
use xbot_framework.Service.User.{Method, Prog, done, call}

-- `struct { char value[42]; size_t length; bool valid; }`
pub record ArrayRegister : Type 0 where
  pub value : List ℕ
  pub length : ℕ
  pub valid : Bool

-- `struct { uint32_t value; bool valid; }`
pub record WordRegister : Type 0 where
  pub value : ℕ
  pub valid : Bool

-- What the user's class reaches: the registers, and the members `derived` of its own.
pub record Protected (V : Type 0) : Type 0 where
  pub register1 : ArrayRegister
  pub register2 : WordRegister
  pub register4_optional : WordRegister
  pub derived : V

-- The private members are the counter of the advertisements and the reboot flag.
pub record Template (V : Type 0) : Type 0 where
  pub protected : Protected V
  pub sd_sequence : ℕ
  pub reboot : Bool

-- `sizeof(Register1.value)`
abbrev pub register1_size : ℕ
register1_size = 42

-- The members as their initialisers leave them. C++ leaves the values of the registers open; no code reads
-- them before they are valid, and here they are zero.
unfoldable pub new_template : {V : Type 0} → V → Template V
new_template v = record {
  protected = record {
    register1 = record { value = replicate register1_size 0; length = 0; valid = false };
    register2 = record { value = 0; valid = false };
    register4_optional = record { value = 0; valid = false };
    derived = v;
  };
  sd_sequence = 0;
  reboot = true;
}

-- A `char` array with the length that is passed beside it.
pub record Chars : Type 0 where
  pub buffer : List ℕ
  pub length : ℕ

-- The virtual methods of Service and of the generated class that the user's class overrides.
pub record Callbacks (V : Type 0) : Type 0 where
  pub on_create : Method (Protected V) (Unit {0})
  pub on_start : Method (Protected V) Bool
  pub on_stop : Method (Protected V) (Unit {0})
  pub on_loop : ℕ → ℕ → Method (Protected V) ℕ
  pub on_schedule : ℕ → Method (Protected V) (Unit {0})
  pub on_transaction_start : ℕ → Method (Protected V) (Unit {0})
  pub on_transaction_end : Method (Protected V) (Unit {0})
  pub on_example_input1_changed : Chars → Method (Protected V) (Unit {0})
  pub on_example_input2_changed : ℕ → Method (Protected V) (Unit {0})
  pub on_register_register3_changed : List ℕ → Method (Protected V) Bool
  pub rpc_no_params_no_return : ℕ → Method (Protected V) (Unit {0})
  pub rpc_scalar_params_with_return : ℕ → ℕ → ℕ → ℕ → Method (Protected V) (Unit {0})
  pub rpc_array_param_no_return : ℕ → Chars → Method (Protected V) (Unit {0})
  pub rpc_mixed_params_with_return : ℕ → Chars → ℕ → Method (Protected V) (Unit {0})

-- A method of the user's class leaves the private members alone.
unfoldable pub over_private :
    {V R : Type 0} → Template V → Prog (Protected V × R) → Prog (Template V × R)
over_private t (done r) = done (record t { protected = r.0 }, r.1)
over_private t (call c k) = call c (λ b. over_private t (k b))

unfoldable pub user_method : {V R : Type 0} → Method (Protected V) R → Method (Template V) R
user_method m t = over_private t (m t.protected)
