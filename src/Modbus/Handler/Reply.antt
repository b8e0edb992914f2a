-- ===== src/Modbus/Handler/Reply.antt =====
-- What `handle_device_control` (workers/modbus/handler.rs) passes around: tasks, the ways to end, the
-- data of a response, and the fields that a write lacks.
use roboplc_middle.Prelude.{
  ℕ, ◌%◌, ◌^◌, Bool, true, false, String, List, [], ◌∷◌, ◌++◌, map, Option, none, some,
}
use roboplc_middle.Prelude.Text.{codes}
use roboplc_middle.Prelude.Float.{Float}
use roboplc_middle.Prelude.Json.{Json}
use roboplc_middle.Config.{
  DataType, u16, u32, i16, i32, f32, f64, bool, ByteOrder, FieldMapping, Device,
}
use roboplc_middle.Modbus.Client.{ModbusOp, OperationResult}
use roboplc_middle.Modbus.Parsing.{ParsedField, parse_signal_group_fields}
use roboplc_middle.Modbus.Pool.{ModbusConnectionPool}
use roboplc_middle.Modbus.Handler.{
  Operation, write_signal_group, resolve_signal_group, numbers, missing_fields, param,
}

-- The names under which serde writes a data type.
abbrev pub data_type_name : DataType → String
data_type_name u16 = "u16"
data_type_name i16 = "i16"
data_type_name u32 = "u32"
data_type_name i32 = "i32"
data_type_name f32 = "f32"
data_type_name f64 = "f64"
data_type_name bool = "bool"

-- `join(", ")`
unfoldable pub join : List String → List ℕ
join [] = []
join (t ∷ []) = codes t
join (t ∷ u ∷ rest) = codes t ++ codes ", " ++ join (u ∷ rest)

abbrev pub or_else : {A : Type 0} → Option A → A → A
or_else none d = d
or_else (some a) d = a

-- What the spawned task takes with it.
pub record Task : Type 0 where
  pub modbus_op : Option ModbusOp
  pub group_name : String
  pub fields_data : Option (List FieldMapping × ByteOrder)

-- How the handler ends: it responds, it spawns a task with the pool, or it panics.
pub data Handled (Value Client : Type 0) : Type 0 where
  responded : OperationResult Value → Handled Value Client
  spawned : Task → ModbusConnectionPool Client → Handled Value Client
  crashed : Handled Value Client

module _ (fl : Float) (js : Json fl.F64) where
  open js use {Value, get, null, as_array, as_object, as_str, as_u64}

  abbrev pub field_json : ParsedField fl.F64 → Value
  field_json f = js.object (
      ("name", js.of_str f.name)
      ∷ ("value", js.of_f64 f.value)
      ∷ ("data_type", js.of_str (data_type_name f.data_type))
      ∷ [])

  -- The data of a result that is not decoded.
  abbrev pub plain : String → Value → Value
  plain group_name v = js.object (("group_name", js.of_str group_name) ∷ ("result", v) ∷ [])

  unfoldable pub decoded : String → List FieldMapping → ByteOrder → Value → Value
  decoded group_name fields byte_order v = elim (param fl js v "values" as_array) [
    | none ↦ plain group_name v
    | some values ↦
        let registers = map (λ n. n % 2 ^ 16) (numbers as_u64 values) in
        plain group_name (
          js.object (
            (
              "fields",
              js.array (map field_json (parse_signal_group_fields fl registers fields byte_order)),
            )
            ∷ ("latency_us", or_else (get v "latency_us") null)
            ∷ []))
  ]

  -- The response data of a task.
  abbrev pub response_data : String → Option (List FieldMapping × ByteOrder) → Bool → Value → Value
  unfolding decoded
  response_data group_name (some (fields, byte_order)) true v =
      decoded group_name fields byte_order v
  response_data group_name (some (fields, byte_order)) false v = plain group_name v
  response_data group_name none success v = plain group_name v

  -- The fields that a write of encoded fields lacks.
  unfoldable pub incomplete : Device → Operation → String → Value → List String
  incomplete device write_signal_group group_name params =
      elim (param fl js params "data" as_object) [
        | none ↦ []
        | some fields_data ↦ elim (resolve_signal_group group_name device.signal_groups) [
          | none ↦ []
          | some group ↦ missing_fields fields_data group.fields
        ]
      ]
  incomplete device _ group_name params = []
