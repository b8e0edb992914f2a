-- ===== src/Modbus/Handler/Requests.antt =====
-- The operations that requests become (workers/modbus/handler.rs).
use roboplc_middle.Prelude.{
  ℕ, ◌≤◌, ◌≡◌, ◌≢◌, ◌↔◌, refl, Bool, String, List, [], ◌∷◌, none, some, All, Option-cases, inl, inr,
}
use roboplc_middle.Prelude.Float.{Float}
use roboplc_middle.Prelude.Attempt.{done}
use roboplc_middle.Prelude.Json.{Json, lookup}
use roboplc_middle.Config.{FieldMapping, SignalGroup, Device}
use roboplc_middle.Config.Validate.{valid, validate_address}
use roboplc_middle.Config.Validate.Addresses.{validate_address-parse}
use roboplc_middle.Modbus.Address.{RegisterType, parse_register_address}
use roboplc_middle.Modbus.Client.{ModbusOp, write_multiple, write_single_coil, write_multiple_coils}
use roboplc_middle.Modbus.Handler.{
  read_signal_group, resolve_signal_group, read_op, missing_fields, param, named_group,
  operation_to_modbus_op,
}

-- Where an operation writes.
pub data WritesTo : RegisterType → ℕ → ModbusOp → Type 0 where
  to_holding : (a : ℕ) (vs : List ℕ) → WritesTo RegisterType.holding a (write_multiple a vs)
  to_coil : (a : ℕ) (v : Bool) → WritesTo RegisterType.coil a (write_single_coil a v)
  to_coils : (a : ℕ) (vs : List Bool) → WritesTo RegisterType.coil a (write_multiple_coils a vs)

module _ (fl : Float) (js : Json fl.F64) where
  open js use {Value, as_str}

  named_group-found :
      (device : Device) (params : Value) (name : String) (group : SignalGroup) (r : RegisterType)
      (a : ℕ)
      → param fl js params "group_name" as_str ≡ some name
      → resolve_signal_group name device.signal_groups ≡ some group
      → parse_register_address group.register_address ≡ some (r, a)
      → named_group fl js device params ≡ done (group, r, a)
  unfolding named_group
  named_group-found device params name group r a e f h = rw (e, f, h) refl

  -- A read of a group with a valid address always becomes an operation: it reads, in the register
  -- type and at the 16-bit address that the group's text says, the group's number of registers.
  pub operation_to_modbus_op-read :
      (device : Device) (params : Value) (name : String) (group : SignalGroup)
      → param fl js params "group_name" as_str ≡ some name
      → resolve_signal_group name device.signal_groups ≡ some group
      → validate_address device.id group ≡ valid
      → (r : RegisterType) × (a : ℕ) × (parse_register_address group.register_address ≡ some (r, a))
        × (a ≤ 65535)
        × (operation_to_modbus_op fl js device read_signal_group params
            ≡ done (read_op r a group.register_count))
  unfolding operation_to_modbus_op
  operation_to_modbus_op-read device params name group e f v =
      let (r, a, p, l) = validate_address-parse device.id group v in
      (r, a, p, l, rw (named_group-found device params name group r a e f p) refl)

-- A write of encoded fields lacks no field exactly if every field of the group has an entry.
pub missing_fields_iff :
    {Value : Type 0} (provided : List (String × Value)) (fields : List FieldMapping)
    → (missing_fields provided fields ≡ [])
      ↔ All (λ (f : FieldMapping). lookup f.name provided ≢ none) fields
unfolding missing_fields
missing_fields_iff provided [] = (λ e. tt, λ h. refl)
missing_fields_iff provided (f ∷ fields) =
    let (to, from) = missing_fields_iff provided fields in
    elim (Option-cases (lookup f.name provided)) [
      | inl e ↦ rw e (λ d. absurd cc, λ h. absurd (h.0 refl))
      | inr (v, e) ↦ rw e (λ d. (λ g. cc, to d), λ h. from h.1)
    ]
