-- ===== src/Template/Client.antt =====
-- codegen/templates/ServiceInterfaceTemplate.cpp: the interface that the generator wrote. Each Call method has
-- two parts, before and after the wait of SendRpc; the first answers none where the method returns at once.
use xbot_framework.Prelude.{
  ℕ, ◌*◌, ◌/◌, ◌%◌, List, [], ◌++◌, Option, none, some, Bool, true, false, not, ◌==◌, ltb,
  if◌then◌else◌, length, take, u32_mod,
}
use xbot_framework.Wire.Bytes.{le_bytes, le_value}
use xbot_framework.Wire.Frames.{encode_descriptor}
use xbot_framework.Interface.Base.{
  Base, base_send_data, begin_rpc, end_rpc, RpcResult, rpc_ok, rpc_error, rpc_timeout,
}
use xbot_framework.Template.Members.{Chars}

-- The virtual methods of the user's class, over its members.
pub record Outputs (W : Type 0) : Type 0 where
  pub on_example_output1_changed : Chars → W → W
  pub on_example_output2_changed : ℕ → W → W

-- `OnData`, for the service's own ID.
unfoldable pub on_data : {W : Type 0} → Outputs W → ℕ → List ℕ → W → W
on_data o target_id payload w =
    if target_id == 0
    then (if not (length payload % 1 == 0)
        then w
        else o.on_example_output1_changed (record { buffer = payload; length = length payload / 1 })
            w)
    else if target_id == 1
    then (if not (length payload == 4)
        then w
        else o.on_example_output2_changed (le_value payload) w)
    else w

-- The registers. The data is a pointer with a length.
unfoldable pub set_register_register1 : List ℕ → ℕ → Base → Base × Bool
set_register_register1 content length = base_send_data 0 (take (length * 1) content) true

unfoldable pub set_register_register2 : ℕ → Base → Base × Bool
set_register_register2 value = base_send_data 1 (le_bytes 4 value) true

unfoldable pub set_register_register3 : List ℕ → ℕ → Base → Base × Bool
set_register_register3 content length = base_send_data 2 (take length content) true

unfoldable pub set_register_register4_optional : ℕ → Base → Base × Bool
set_register_register4_optional value = base_send_data 3 (le_bytes 4 value) true

-- The inputs.
unfoldable pub send_example_input1 : List ℕ → ℕ → Base → Base × Bool
send_example_input1 content length = base_send_data 0 (take (length * 1) content) false

unfoldable pub send_example_input2 : ℕ → Base → Base × Bool
send_example_input2 value = base_send_data 1 (le_bytes 4 value) false

-- A block that appends a scalar parameter to `params_buf`.
unfoldable pub append_param : ℕ → List ℕ → List ℕ → List ℕ
append_param target_id bytes params_buf =
    params_buf ++ (encode_descriptor target_id (length bytes) ++ bytes)

-- A block that appends a `char` array, which may be the null pointer if it is empty.
unfoldable pub append_chars : ℕ → Option (List ℕ) → ℕ → List ℕ → Option (List ℕ)
append_chars target_id content len params_buf =
    let byte_len = len * 1 in
    elim content [
      | none ↦
          if ltb 0 byte_len
          then none
          else some (params_buf ++ encode_descriptor target_id (byte_len % u32_mod))
      | some bytes ↦
          some (
            params_buf ++ (encode_descriptor target_id (byte_len % u32_mod) ++ take byte_len bytes))
    ]

unfoldable pub scalar_params_buf : ℕ → ℕ → ℕ → List ℕ
scalar_params_buf speed count enable =
    append_param 2 (le_bytes 1 enable)
      (append_param 1 (le_bytes 4 count) (append_param 0 (le_bytes 4 speed) []))

unfoldable pub begin_no_params : (Base → Base) → Base → Base × Bool
begin_no_params others = begin_rpc others 0 [] 0

unfoldable pub begin_scalar_params : (Base → Base) → ℕ → ℕ → ℕ → Base → Base × Bool
begin_scalar_params others speed count enable =
    begin_rpc others 1 (scalar_params_buf speed count enable) 4

-- A call of a function, unless its parameters have a null pointer.
abbrev pub begin_if_some : (Base → Base) → ℕ → ℕ → Option (List ℕ) → Base → Base × Bool
begin_if_some others function_id response_max none s = (s, false)
begin_if_some others function_id response_max (some params) s =
    begin_rpc others function_id params response_max s

unfoldable pub begin_array_param : (Base → Base) → Option (List ℕ) → ℕ → Base → Base × Bool
begin_array_param others label label_len =
    begin_if_some others 2 0 (append_chars 0 label label_len [])

unfoldable pub begin_mixed_params : (Base → Base) → Option (List ℕ) → ℕ → ℕ → Base → Base × Bool
begin_mixed_params others name name_len value =
    begin_if_some others 3 1 (elim (append_chars 0 name name_len []) [
      | none ↦ none
      | some params_buf ↦ some (append_param 1 (le_bytes 4 value) params_buf)
    ])

-- The end of a method of a void function.
abbrev pub void_result : RpcResult → Bool
void_result (rpc_ok size bytes) = true
void_result rpc_error = false
void_result rpc_timeout = false

unfoldable pub end_void : Base → Base × Bool
end_void s = let (s', r) = end_rpc 0 s in (s', void_result r)

-- The end of a method of a function that returns a number of a size: the result, if there is one. What nothing
-- was written to is zero, as `resp_buf` is at first.
abbrev pub number_result : ℕ → RpcResult → Option ℕ
number_result size (rpc_ok resp_size bytes) =
    if ltb resp_size size then none else some (le_value bytes)
number_result size rpc_error = none
number_result size rpc_timeout = none

unfoldable pub end_number : ℕ → Base → Base × Option ℕ
end_number size s = let (s', r) = end_rpc size s in (s', number_result size r)
