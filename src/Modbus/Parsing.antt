-- ===== src/Modbus/Parsing.antt =====
-- Fields of a signal group in a register buffer (workers/modbus/parsing.rs).
pub mod Registers
pub mod Write
pub mod Entry
pub mod RoundTrip
pub mod Bounds
mod Tests
use text.Mathlib.Text.{◌==◌ as str_eq}
use roboplc_middle.Prelude.{
  ℕ, zero, suc, ◌+◌, ◌*◌, ◌/◌, ◌%◌, String, List, [], ◌∷◌, ◌++◌, Option, none, some, ltb, ◌==◌,
  if◌then◌else◌, length, get_elem?, set, take, replicate,
}
use roboplc_middle.Prelude.Attempt.{Attempt, done, nothing, panicked, lift, ◌>>=◌}
use roboplc_middle.Prelude.Float.{Float}
use roboplc_middle.Prelude.Json.{Json}
use roboplc_middle.Config.{
  DataType, u16, u32, i16, i32, f32, f64, bool, ByteOrder, FieldMapping, required_registers,
  saturating_add16,
}
use roboplc_middle.Conversion.{from_bytes, to_bytes}

-- Two bytes make a register, the first one high; a last single byte is a register of its own.
unfoldable pub bytes_to_registers : List ℕ → List ℕ
bytes_to_registers [] = []
bytes_to_registers (high ∷ []) = high ∷ []
bytes_to_registers (high ∷ low ∷ rest) = (high * 256 + low) ∷ bytes_to_registers rest

-- `reg >> 8` and `reg & 0xFF` as bytes; for a single byte only the low one.
abbrev pub register_bytes : ℕ → ℕ → List ℕ
register_bytes byte_count reg =
    if byte_count == 1 then (reg % 256) ∷ [] else (reg / 256) ∷ (reg % 256) ∷ []

-- The loop of `extract_bytes_from_registers`: `rounds` registers from `offset` on.
unfoldable pub extract_loop : List ℕ → ℕ → ℕ → ℕ → List ℕ
extract_loop registers byte_count offset zero = []
extract_loop registers byte_count offset (suc rounds) =
    elim (get_elem? registers offset) [ none ↦ [] | some reg ↦ register_bytes byte_count reg ]
    ++ extract_loop registers byte_count (suc offset) rounds

unfoldable pub extract_bytes_from_registers : List ℕ → ℕ → ℕ → List ℕ
unfolding extract_loop
extract_bytes_from_registers registers offset byte_count =
    take byte_count (extract_loop registers byte_count offset ((byte_count + 1) / 2))

-- `byte_count` of `parse_signal_group_fields`
unfoldable pub byte_count : DataType → ℕ
byte_count bool = 1
byte_count u16 = 2
byte_count i16 = 2
byte_count u32 = 4
byte_count i32 = 4
byte_count f32 = 4
byte_count f64 = 8

-- `fields.iter().find(|f| f.name == name)`: the first one of that name.
unfoldable pub find_field : String → List FieldMapping → Option FieldMapping
find_field name [] = none
find_field name (f ∷ rest) = if str_eq f.name name then some f else find_field name rest

-- `field_map.get(name)`, of the `HashMap` collected from the fields: the last one of that name.
unfoldable pub map_field : String → List FieldMapping → Option FieldMapping
map_field name [] = none
map_field name (f ∷ rest) = elim (map_field name rest) [
  | some g ↦ some g
  | none ↦ if str_eq f.name name then some f else none
]

-- `for (i, reg) in regs.enumerate() { registers[offset + i] = reg }`: an index out of bounds
-- panics.
unfoldable pub write_registers : List ℕ → ℕ → List ℕ → Attempt (List ℕ)
write_registers registers offset [] = done registers
write_registers registers offset (reg ∷ regs) =
    if ltb offset (length registers)
    then write_registers (set registers offset reg) (suc offset) regs
    else panicked

pub record EncodedField : Type 0 where
  pub name : String
  pub offset : ℕ
  pub registers : List ℕ

pub record ParsedField (F64 : Type 0) : Type 0 where
  pub name : String
  pub value : F64
  pub data_type : DataType

module _ (fl : Float) where
  open fl use {F64}

  -- The body of the loop of `parse_signal_group_fields`; `none` is `continue`.
  unfoldable pub parse_field : List ℕ → ByteOrder → FieldMapping → Option (ParsedField F64)
  parse_field registers byte_order field =
      if ltb (length registers) (field.offset + required_registers field.data_type)
      then none
      else (elim (from_bytes fl
          (extract_bytes_from_registers registers field.offset (byte_count field.data_type))
          field.data_type byte_order) [
            | none ↦ none
            | some v ↦ some (record { name = field.name; value = v; data_type = field.data_type })
          ])

  unfoldable pub parse_signal_group_fields :
      List ℕ → List FieldMapping → ByteOrder → List (ParsedField F64)
  parse_signal_group_fields registers [] byte_order = []
  parse_signal_group_fields registers (f ∷ fields) byte_order =
      elim (parse_field registers byte_order f) [ none ↦ [] | some p ↦ p ∷ [] ]
      ++ parse_signal_group_fields registers fields byte_order

module _ (fl : Float) (js : Json fl.F64) where
  open fl use {F64}
  open js use {Value, as_f64}

  -- `encode_single_field`, for the field that was found.
  abbrev pub encode_found : String → Value → FieldMapping → ByteOrder → Option EncodedField
  encode_found name v field byte_order = elim (as_f64 v) [
    | none ↦ none
    | some x ↦ elim (to_bytes fl x field.data_type byte_order) [
      | none ↦ none
      | some bytes ↦
          some (record { name = name; offset = field.offset; registers = bytes_to_registers bytes })
    ]
  ]

  unfoldable pub encode_single_field :
      String → Value → List FieldMapping → ByteOrder → Option EncodedField
  encode_single_field name v fields byte_order = elim (find_field name fields) [
    | none ↦ none
    | some field ↦ encode_found name v field byte_order
  ]

  unfoldable pub encode_fields_for_partial_write :
      List (String × Value) → List FieldMapping → ByteOrder → List EncodedField
  encode_fields_for_partial_write [] fields byte_order = []
  encode_fields_for_partial_write ((name, v) ∷ rest) fields byte_order =
      elim (map_field name fields) [
        | none ↦ []
        | some field ↦ elim (encode_found name v field byte_order) [ none ↦ [] | some e ↦ e ∷ [] ]
      ]
      ++ encode_fields_for_partial_write rest fields byte_order

  -- The body of the loop of `encode_fields_to_registers`.
  unfoldable pub encode_entry :
      ℕ → List FieldMapping → ByteOrder → String → Value → List ℕ → Attempt (List ℕ)
  encode_entry register_count fields byte_order name v registers = do
    field ← lift (map_field name fields)
    x ← lift (as_f64 v)
    bytes ← lift (to_bytes fl x field.data_type byte_order)
    let end_offset = saturating_add16 field.offset (required_registers field.data_type)
    if ltb register_count end_offset
        then nothing
        else write_registers registers field.offset (bytes_to_registers bytes)

  unfoldable pub encode_loop :
      ℕ → List FieldMapping → ByteOrder → List (String × Value) → List ℕ → Attempt (List ℕ)
  encode_loop register_count fields byte_order [] registers = done registers
  encode_loop register_count fields byte_order ((name, v) ∷ rest) registers = do
    registers' ← encode_entry register_count fields byte_order name v registers
    encode_loop register_count fields byte_order rest registers'

  unfoldable pub encode_fields_to_registers :
      List (String × Value) → List FieldMapping → ℕ → ByteOrder → Attempt (List ℕ)
  encode_fields_to_registers fields_data fields register_count byte_order =
      encode_loop register_count fields byte_order fields_data (replicate register_count 0)
