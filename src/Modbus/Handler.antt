-- ===== src/Modbus/Handler.antt =====
-- The handler of device control requests (workers/modbus/handler.rs): from a request to an
-- operation on registers, and from its result to a response.
pub mod Reply
pub mod Control
pub mod Requests
pub mod Responses
pub mod Safety
pub mod Keeps
mod Tests
use text.Mathlib.Text.{◌==◌ as str_eq}
use roboplc_middle.Prelude.{
  ℕ, zero, suc, ◌%◌, ◌^◌, Bool, true, false, not, String, List, [], ◌∷◌, ◌++◌, map, Option, none,
  some, ◌==◌, if◌then◌else◌, get_or, length,
}
use roboplc_middle.Prelude.Text.{codes}
use roboplc_middle.Prelude.Float.{Float}
use roboplc_middle.Prelude.Attempt.{Attempt, done, nothing, panicked, lift, ◌>>=◌}
use roboplc_middle.Prelude.Json.{Json, lookup}
use roboplc_middle.Config.{FieldMapping, SignalGroup, Device}
use roboplc_middle.Modbus.Address.{RegisterType, parse_register_address}
use roboplc_middle.Modbus.Io.{Io}
use roboplc_middle.Modbus.Client.{
  ModbusOp, read_coil, read_discrete, read_input, read_holding, write_multiple, write_single_coil,
  write_multiple_coils, OperationResult,
}
use roboplc_middle.Modbus.Parsing.{encode_fields_to_registers}
use roboplc_middle.Modbus.State.{ModbusWorkerState}

-- `Operation` of messages.rs.
pub data Operation : Type 0 where
  read_signal_group write_signal_group get_status : Operation

-- `iter().find(|g| g.name == group_name)`
unfoldable pub resolve_signal_group : String → List SignalGroup → Option SignalGroup
resolve_signal_group group_name [] = none
resolve_signal_group group_name (g ∷ groups) =
    if str_eq g.name group_name then some g else resolve_signal_group group_name groups

-- `validate_writable(..).ok()`
unfoldable pub validate_writable : RegisterType → Option (Unit {0})
validate_writable RegisterType.discrete = none
validate_writable RegisterType.input = none
validate_writable RegisterType.coil = some tt
validate_writable RegisterType.holding = some tt

unfoldable pub read_op : RegisterType → ℕ → ℕ → ModbusOp
read_op RegisterType.coil address count = read_coil address count
read_op RegisterType.discrete address count = read_discrete address count
read_op RegisterType.input address count = read_input address count
read_op RegisterType.holding address count = read_holding address count

-- The coil write for the values.
unfoldable pub coil_op : ℕ → List Bool → ModbusOp
coil_op address values =
    if length values == 1
    then write_single_coil address (get_or values 0 false)
    else write_multiple_coils address values

-- `filter_map(|v| v.as_u64())`
abbrev pub numbers : {Value : Type 0} → (Value → Option ℕ) → List Value → List ℕ
numbers as_u64 [] = []
numbers as_u64 (v ∷ vs) = elim (as_u64 v) [
  | none ↦ numbers as_u64 vs
  | some n ↦ n ∷ numbers as_u64 vs
]

-- The body of the loop of `validate_field_completeness`, before the fields that follow.
abbrev pub missing_after : {Value : Type 0} → Option Value → String → List String → List String
missing_after none name rest = name ∷ rest
missing_after (some _) name rest = rest

-- `missing` of `validate_field_completeness`: the required fields that were not provided.
unfoldable pub missing_fields :
    {Value : Type 0} → List (String × Value) → List FieldMapping → List String
missing_fields provided [] = []
missing_fields provided (required ∷ rest) =
    missing_after (lookup required.name provided) required.name (missing_fields provided rest)

module _ (fl : Float) (js : Json fl.F64) where
  open js use {Value, as_u64, as_str, as_array, as_object, get}

  -- `params.get(key).and_then(accessor)`
  abbrev pub param : {A : Type 0} → Value → String → (Value → Option A) → Option A
  param params key accessor = elim (get params key) [ none ↦ none | some v ↦ accessor v ]

  -- The values of a write: encoded fields, or the raw values, each cast.
  abbrev pub given_values :
      (ℕ → ℕ)
      → SignalGroup
      → Device
      → Option (List (String × Value))
      → Option (List Value)
      → Attempt (List ℕ)
  given_values cast group device (some fields_data) raw =
      encode_fields_to_registers fl js fields_data group.fields group.register_count
        device.byte_order
  given_values cast group device none (some raw_values) =
      done (map cast (numbers as_u64 raw_values))
  given_values cast group device none none = nothing

  unfoldable pub write_values : (ℕ → ℕ) → Value → SignalGroup → Device → Attempt (List ℕ)
  write_values cast params group device =
      given_values cast group device (param params "data" as_object)
        (param params "values" as_array)

  abbrev pub nonzero : ℕ → Bool
  nonzero n = not (n == 0)

  -- The write for a register type; `n as u16` for raw registers.
  unfoldable pub write_op : RegisterType → ℕ → Value → SignalGroup → Device → Attempt ModbusOp
  unfolding coil_op write_values
  write_op RegisterType.coil address params group device = do
    values ← write_values (λ n. n) params group device
    done (coil_op address (map nonzero values))
  write_op RegisterType.holding address params group device = do
    values ← write_values (λ n. n % 2 ^ 16) params group device
    done (write_multiple address values)
  write_op _ address params group device = nothing

  -- The group that a request names, and its address.
  unfoldable pub named_group : Device → Value → Attempt (SignalGroup × RegisterType × ℕ)
  named_group device params = do
    name ← lift (param params "group_name" as_str)
    group ← lift (resolve_signal_group name device.signal_groups)
    place ← lift (parse_register_address group.register_address)
    done (group, place.0, place.1)

  unfoldable pub operation_to_modbus_op : Device → Operation → Value → Attempt ModbusOp
  operation_to_modbus_op device get_status params = nothing
  operation_to_modbus_op device read_signal_group params = do
    found ← named_group device params
    let (group, reg_type, address) = found
    done (read_op reg_type address group.register_count)
  operation_to_modbus_op device write_signal_group params = do
    found ← named_group device params
    let (group, reg_type, address) = found
    writable ← lift (validate_writable reg_type)
    write_op reg_type address params group device
