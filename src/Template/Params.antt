-- ===== src/Template/Params.antt =====
-- codegen/templates/ServiceTemplate.cpp: how `dispatchRpcCall` reads the parameters of a call. Its loop stands
-- there once for each function that has parameters; here it is one loop over the switch of the function.
pub mod Laws
use xbot_framework.Prelude.{
  ℕ, zero, suc, ◌+◌, ◌%◌, List, Bool, true, false, not, ◌||◌, ◌&&◌, ◌==◌, leb, if◌then◌else◌,
  length, take, drop, replicate, size_mod, u8_mod,
}
use xbot_framework.Wire.Bytes.{le_value}
use xbot_framework.Wire.Frames.{ended, broken, frame, next_frame, descriptor_size}
use xbot_framework.Service.Send.{write_at}
use xbot_framework.Template.Members.{Chars}

-- What a case of the switch does with the data of a descriptor: a parameter of the right size is stored and
-- counted, one of the wrong size makes the call fail, and an unknown one is skipped.
pub data Taken (P : Type 0) : Type 0 where
  stored : P → Taken P
  wrong_size skipped : Taken P

-- The local variables of a case: the parameters, `parse_ok` and `params_received`, a `uint8_t`.
pub record Parse (P : Type 0) : Type 0 where
  pub params : P
  pub parse_ok : Bool
  pub params_received : ℕ

module _ {P : Type 0} where
  unfoldable pub note_param : Taken P → Parse P → Parse P
  note_param (stored p) r = record r {
    params = p;
    params_received = (r.params_received + 1) % u8_mod;
  }
  note_param wrong_size r = record r { parse_ok = false }
  note_param skipped r = r

  module _ (switch : ℕ → List ℕ → P → Taken P) where
    -- The loop. Each round takes eight bytes or more, so that one round more than there are bytes is enough.
    unfoldable pub parse_params : ℕ → List ℕ → ℕ → Parse P → Parse P
    parse_params zero payload offset r = r
    parse_params (suc fuel) payload offset r = elim (next_frame size_mod payload offset) [
      | ended ↦ r
      | broken ↦ record r { parse_ok = false }
      | frame target_id size next ↦
          let content = take size (drop (offset + descriptor_size) payload) in
          parse_params fuel payload next (note_param (switch target_id content r.params) r)
    ]

    unfoldable pub parse : List ℕ → P → Parse P
    parse payload initial =
        parse_params (suc (length payload)) payload 0
          (record { params = initial; parse_ok = true; params_received = 0 })

-- A scalar parameter, of a size.
abbrev pub scalar : {P : Type 0} → ℕ → (ℕ → P) → List ℕ → Taken P
scalar size store content =
    if length content == size then stored (store (le_value content)) else wrong_size

-- A `char` array parameter, with a buffer of a size; `sizeof(char)` is 1.
abbrev pub chars : {P : Type 0} → ℕ → Chars → (Chars → P) → List ℕ → Taken P
chars size old store content =
    if (length content % 1 == 0) && leb (length content) size
    then stored (store (record { buffer = write_at old.buffer 0 content; length = length content }))
    else wrong_size

-- `char param[n] = {}` with `paramLen = 0`
abbrev pub no_chars : ℕ → Chars
no_chars size = record { buffer = replicate size 0; length = 0 }

-- The parameters of ScalarParamsWithReturn.
pub record ScalarParams : Type 0 where
  pub speed : ℕ
  pub count : ℕ
  pub enable : ℕ

abbrev pub no_scalar_params : ScalarParams
no_scalar_params = record { speed = 0; count = 0; enable = 0 }

unfoldable pub scalar_switch : ℕ → List ℕ → ScalarParams → Taken ScalarParams
scalar_switch target_id content p =
    if target_id == 0
    then scalar 4 (λ v. record p { speed = v }) content
    else if target_id == 1
    then scalar 4 (λ v. record p { count = v }) content
    else if target_id == 2
    then scalar 1 (λ v. record p { enable = v }) content
    else skipped

-- The parameter of ArrayParamNoReturn.
abbrev pub label_size : ℕ
label_size = 64

unfoldable pub array_switch : ℕ → List ℕ → Chars → Taken Chars
array_switch target_id content p =
    if target_id == 0 then chars label_size p (λ v. v) content else skipped

-- The parameters of MixedParamsWithReturn.
pub record MixedParams : Type 0 where
  pub name : Chars
  pub value : ℕ

abbrev pub name_size : ℕ
name_size = 32

abbrev pub no_mixed_params : MixedParams
no_mixed_params = record { name = no_chars name_size; value = 0 }

unfoldable pub mixed_switch : ℕ → List ℕ → MixedParams → Taken MixedParams
mixed_switch target_id content p =
    if target_id == 0
    then chars name_size p.name (λ v. record p { name = v }) content
    else if target_id == 1
    then scalar 4 (λ v. record p { value = v }) content
    else skipped
