-- ===== src/Modbus/Parsing/Bounds.antt =====
-- When `encode_fields_to_registers` (workers/modbus/parsing.rs) succeeds, fails and panics.
use roboplc_middle.Prelude.{
  ℕ, ◌≤◌, ◌<◌, ◌≡◌, ◌≢◌, refl, sym, ◌∙◌, inl, inr, arith, String, List, [], ◌∷◌, some, ltb, length,
  length-replicate, replicate, min, Bool-cases, Option-cases,
}
use roboplc_middle.Prelude.Attempt.{panicked, Attempt-cases}
use roboplc_middle.Prelude.Float.{Float}
use roboplc_middle.Prelude.Json.{Json}
use roboplc_middle.Config.{ByteOrder, FieldMapping}
use roboplc_middle.Modbus.Parsing.{
  bytes_to_registers, map_field, encode_entry, encode_loop, encode_fields_to_registers,
}
use roboplc_middle.Modbus.Parsing.Write.{
  write_registers-fits, write_registers-panics, length-written,
}
use roboplc_middle.Modbus.Parsing.Entry.{
  required_registers-pos, end_of, payload, encode_entry_lem, encode_entry-Wrote,
}

module _ (fl : Float) (js : Json fl.F64) where
  open fl use {F64}
  open js use {Value, as_f64}

  -- The entry names a field that lies within the group, and its value is a number.
  pub record Fits (fields : List FieldMapping) (count : ℕ) (name : String) (v : Value)
      : Type 0 where
    pub field : FieldMapping
    pub number : F64
    pub known : map_field name fields ≡ some field
    pub numeric : as_f64 v ≡ some number
    pub within : end_of field ≤ count

  encode_entry-ne-panicked :
      (count : ℕ) (fields : List FieldMapping) (order : ByteOrder) (name : String) (v : Value)
      (regs : List ℕ)
      → count < 65535
      → length regs ≡ count
      → encode_entry fl js count fields order name v regs ≢ panicked
  unfolding encode_entry
  encode_entry-ne-panicked count fields order name v regs small n e =
      elim (Option-cases (map_field name fields)) [
        | inl none_known ↦ cc
        | inr (f, known) ↦ elim (Option-cases (as_f64 v)) [
          | inl none_numeric ↦ cc
          | inr (x, number) ↦
              let (d, p) = payload fl js x f order in
              let step =
                sym (encode_entry_lem fl js count fields order name v regs known number p) ∙ e in
              elim (Bool-cases (ltb count (min (end_of f) 65535))) [
                | inl over ↦ cc step
                | inr within ↦ cc (
                  step,
                  write_registers-fits (bytes_to_registers d) regs f.offset
                      (ground (arith, p.registers, within)),
                )
              ]
        ]
      ]

  encode_loop-ne-panicked :
      (count : ℕ) (fields : List FieldMapping) (order : ByteOrder) (entries : List (String × Value))
      (regs : List ℕ)
      → count < 65535
      → length regs ≡ count
      → encode_loop fl js count fields order entries regs ≢ panicked
  unfolding encode_loop
  encode_loop-ne-panicked count fields order [] regs small n e = cc
  encode_loop-ne-panicked count fields order ((name, v) ∷ rest) regs small n e =
      elim (Attempt-cases (encode_entry fl js count fields order name v regs)) [
        | inl (mid, first) ↦
            let (f, x, d, w) = encode_entry-Wrote fl js count fields order name v regs mid first in
            encode_loop-ne-panicked count fields order rest mid small
              (rw w.result (length-written (bytes_to_registers d) regs f.offset ∙ n))
              (rw first at e)
        | inr (inl failed) ↦ cc (rw failed at e)
        | inr (inr bad) ↦
            absurd (encode_entry-ne-panicked count fields order name v regs small n bad)
      ]

  -- The encoding never indexes out of bounds if the group has fewer than 65535 registers.
  pub encode-ne-panicked :
      (entries : List (String × Value)) (fields : List FieldMapping) (count : ℕ) (order : ByteOrder)
      → count < 65535
      → encode_fields_to_registers fl js entries fields count order ≢ panicked
  unfolding encode_fields_to_registers
  encode-ne-panicked entries fields count order small =
      encode_loop-ne-panicked count fields order entries (replicate count 0) small
        (length-replicate count 0)

  encode_entry-panics :
      (count : ℕ) (fields : List FieldMapping) (order : ByteOrder) (name : String) (v : Value)
      (regs : List ℕ) (f : FieldMapping) (x : F64)
      → count ≡ 65535
      → length regs ≡ count
      → map_field name fields ≡ some f
      → as_f64 v ≡ some x
      → count < end_of f
      → encode_entry fl js count fields order name v regs ≡ panicked
  encode_entry-panics count fields order name v regs f x full n known number over =
      let (d, p) = payload fl js x f order in
      encode_entry_lem fl js count fields order name v regs known number p
      ∙ ground (
        arith,
        p.registers,
        required_registers-pos f.data_type,
        write_registers-panics (bytes_to_registers d) regs f.offset,
      )

  -- In a group of 65535 registers, a field that ends behind the last one passes the check, whose
  -- sum saturates at 65535, and the encoding of a number for it, as the first entry, panics.
  pub encode-panics :
      (rest : List (String × Value)) (fields : List FieldMapping) (count : ℕ) (order : ByteOrder)
      (name : String) (v : Value) (f : FieldMapping) (x : F64)
      → count ≡ 65535
      → map_field name fields ≡ some f
      → as_f64 v ≡ some x
      → count < end_of f
      → encode_fields_to_registers fl js ((name, v) ∷ rest) fields count order ≡ panicked
  unfolding encode_fields_to_registers encode_loop
  encode-panics rest fields count order name v f x full known number over =
      rw
        (encode_entry-panics count fields order name v (replicate count 0) f x full
          (length-replicate count 0) known number over)
        refl
