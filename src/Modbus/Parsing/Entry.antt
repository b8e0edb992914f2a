-- ===== src/Modbus/Parsing/Entry.antt =====
-- One entry of `encode_fields_to_registers` (workers/modbus/parsing.rs): the bytes of its value and
-- the registers that it writes.
use roboplc_middle.Prelude.{
  ℕ, ◌+◌, ◌/◌, ◌≤◌, ◌<◌, ◌≡◌, refl, sym, ap, ◌∙◌, ◌⊎◌, inl, inr, arith, String, List, some, ltb,
  if◌then◌else◌, length, All, Bool-cases, min,
}
use roboplc_middle.Prelude.Attempt.{done, nothing, >>=-eq-done, lift-eq-done}
use roboplc_middle.Prelude.Float.{Float}
use roboplc_middle.Prelude.Json.{Json}
use roboplc_middle.Config.{ByteOrder, DataType, FieldMapping, required_registers}
use roboplc_middle.Conversion.{from_bytes, to_bytes}
use roboplc_middle.Conversion.Words.{IsByte}
use roboplc_middle.Conversion.RoundTrip.{stored, from_bytes-to_bytes, to_bytes-IsByte}
use roboplc_middle.Modbus.Parsing.{
  bytes_to_registers, map_field, byte_count, write_registers, encode_entry,
}
use roboplc_middle.Modbus.Parsing.Registers.{
  length-bytes_to_registers, byte_count_lem, byte_count-required,
}
use roboplc_middle.Modbus.Parsing.Write.{written, write_registers-fits, write_registers-panics}

abbrev pub end_of : FieldMapping → ℕ
end_of f = f.offset + required_registers f.data_type

-- The registers of the two fields do not overlap.
abbrev pub Disjoint : FieldMapping → FieldMapping → Type 0
Disjoint f g = (end_of f ≤ g.offset) ⊎ (end_of g ≤ f.offset)

-- The field that `name` stands for, if any, does not overlap `f`.
abbrev pub Apart : List FieldMapping → FieldMapping → String → Type 0
Apart fields f name = (g : FieldMapping) → map_field name fields ≡ some g → Disjoint f g

pub required_registers-pos : (t : DataType) → 0 < required_registers t
unfolding required_registers
required_registers-pos DataType.u16 = omega arith
required_registers-pos _ = omega arith

module _ (fl : Float) (js : Json fl.F64) where
  open fl use {F64}
  open js use {Value, as_f64}

  -- The bytes of a value, and what the other modules say of them.
  pub record Payload (x : F64) (f : FieldMapping) (order : ByteOrder) (d : List ℕ) : Type 0 where
    pub encoded : to_bytes fl x f.data_type order ≡ some d
    pub decoded : from_bytes fl d f.data_type order ≡ some (stored fl x f.data_type)
    pub size : byte_count f.data_type ≡ length d
    pub registers : length (bytes_to_registers d) ≡ required_registers f.data_type
    pub bytes : All IsByte d

  pub payload :
      (x : F64) (f : FieldMapping) (order : ByteOrder) → (d : List ℕ) × Payload x f order d
  payload x f order =
      let (d, e, n, b) = from_bytes-to_bytes fl x f.data_type order in
      let size : byte_count f.data_type ≡ length d = cc (byte_count_lem f.data_type, n) in
      (
        d,
        record {
          encoded = e;
          decoded = b;
          size = size;
          registers =
              length-bytes_to_registers d
              ∙ ap (λ (k : ℕ). (k + 1) / 2) (sym size)
              ∙ byte_count-required f.data_type;
          bytes = to_bytes-IsByte fl x f.data_type order d e;
        },
      )

  -- One round of the loop, on a field that is known and a value that is a number.
  pub encode_entry_lem :
      (count : ℕ) (fields : List FieldMapping) (order : ByteOrder) (name : String) (v : Value)
      (regs : List ℕ) {f : FieldMapping} {x : F64} {d : List ℕ}
      → map_field name fields ≡ some f
      → as_f64 v ≡ some x
      → Payload x f order d
      → encode_entry fl js count fields order name v regs ≡ (
          if ltb count (min (end_of f) 65535)
          then nothing
          else write_registers regs f.offset (bytes_to_registers d))
  unfolding encode_entry
  encode_entry_lem count fields order name v regs known number p =
      rw (known, number, p.encoded) refl

  -- A round that succeeds writes the registers of one known field, within the buffer.
  pub record Wrote (fields : List FieldMapping) (order : ByteOrder) (name : String) (v : Value)
      (regs regs' : List ℕ) (f : FieldMapping) (x : F64) (d : List ℕ) : Type 0 where
    pub known : map_field name fields ≡ some f
    pub number : as_f64 v ≡ some x
    pub data_bytes : Payload x f order d
    pub fits : end_of f ≤ length regs
    pub result : regs' ≡ written regs f.offset (bytes_to_registers d)

  write_registers-inv :
      (regs regs' ws : List ℕ) (offset : ℕ)
      → 0 < length ws
      → write_registers regs offset ws ≡ done regs'
      → (offset + length ws ≤ length regs) × (regs' ≡ written regs offset ws)
  write_registers-inv regs regs' ws offset p e =
      elim (Bool-cases (ltb (length regs) (offset + length ws))) [
        | inl over ↦ cc (write_registers-panics ws regs offset p (ground arith))
        | inr within ↦
            let fits : offset + length ws ≤ length regs = ground arith in
            (fits, cc (write_registers-fits ws regs offset fits))
      ]

  pub encode_entry-Wrote :
      (count : ℕ) (fields : List FieldMapping) (order : ByteOrder) (name : String) (v : Value)
      (regs regs' : List ℕ)
      → encode_entry fl js count fields order name v regs ≡ done regs'
      → (f : FieldMapping) × (x : F64) × (d : List ℕ) × Wrote fields order name v regs regs' f x d
  unfolding encode_entry
  encode_entry-Wrote count fields order name v regs regs' e =
      let (f, known', e1) = >>=-eq-done _ _ e in
      let (x, number', e2) = >>=-eq-done _ _ e1 in
      let known = lift-eq-done _ known' in
      let number = lift-eq-done _ number' in
      let (d, p) = payload x f order in
      let step = sym (encode_entry_lem count fields order name v regs known number p) ∙ e in
      elim (Bool-cases (ltb count (min (end_of f) 65535))) [
        | inl over ↦ absurd (cc step)
        | inr within ↦
            let wrote : write_registers regs f.offset (bytes_to_registers d) ≡ done regs' =
              cc step in
            let (fits, result) =
              write_registers-inv regs regs' (bytes_to_registers d) f.offset
                (omega (arith, p.registers, required_registers-pos f.data_type)) wrote in
            (
              f,
              x,
              d,
              record {
                known = known;
                number = number;
                data_bytes = p;
                fits = omega (arith, p.registers);
                result = result;
              },
            )
      ]
