-- ===== src/Modbus/Parsing/RoundTrip.antt =====
-- `encode_fields_to_registers` followed by `parse_signal_group_fields` (workers/modbus/parsing.rs).
use mathlib.Core.Path.{subst}
use mathlib.Core.List.{Memᴰ}
use roboplc_middle.Prelude.{
  ℕ, ◌≤◌, ◌≡◌, refl, sym, ◌∙◌, inl, inr, arith, String, List, [], ◌∷◌, ◌++◌, some, length,
  replicate, All, Option-cases,
}
use roboplc_middle.Prelude.Attempt.{done, >>=-eq-done}
use roboplc_middle.Prelude.Float.{Float}
use roboplc_middle.Prelude.Json.{Json}
use roboplc_middle.Config.{ByteOrder, FieldMapping, required_registers}
use roboplc_middle.Conversion.RoundTrip.{stored}
use roboplc_middle.Modbus.Parsing.{
  bytes_to_registers, map_field, ParsedField, parse_field, encode_entry, encode_loop,
  encode_fields_to_registers, parse_signal_group_fields,
}
use roboplc_middle.Modbus.Parsing.Registers.{slice, extract_bytes-slice}
use roboplc_middle.Modbus.Parsing.Entry.{end_of, Apart, Payload, Wrote, encode_entry-Wrote}
use roboplc_middle.Modbus.Parsing.Write.{length-written, slice-written_self, slice-written_ne}

Memᴰ-append_right {ℓ} :
    {A : Type ℓ} {a : A} (xs : List A) {ys : List A} → Memᴰ a ys → Memᴰ a (xs ++ ys)
Memᴰ-append_right [] m = m
Memᴰ-append_right (x ∷ xs) m = Memᴰ.tail (Memᴰ-append_right xs m)

module _ (fl : Float) (js : Json fl.F64) where
  open fl use {F64}
  open js use {Value, as_f64}

  length-Wrote :
      {fields : List FieldMapping} {order : ByteOrder} {name : String} {v : Value}
      {regs regs' : List ℕ} {f : FieldMapping} {x : F64} {d : List ℕ}
      → Wrote fl js fields order name v regs regs' f x d
      → length regs' ≡ length regs
  length-Wrote {regs} {f} {d} w = rw w.result (length-written (bytes_to_registers d) regs f.offset)

  pub length-encode_loop :
      (count : ℕ) (fields : List FieldMapping) (order : ByteOrder) (entries : List (String × Value))
      (regs regs' : List ℕ)
      → encode_loop fl js count fields order entries regs ≡ done regs'
      → length regs' ≡ length regs
  unfolding encode_loop
  length-encode_loop count fields order [] regs regs' e = cc
  length-encode_loop count fields order ((name, v) ∷ rest) regs regs' e =
      let (mid, first, later) = >>=-eq-done _ _ e in
      let (f, x, d, w) = encode_entry-Wrote fl js count fields order name v regs mid first in
      length-encode_loop count fields order rest mid regs' later ∙ length-Wrote w

  -- Fields that do not overlap `f` leave its registers alone.
  slice-encode_loop :
      (count : ℕ) (fields : List FieldMapping) (order : ByteOrder) (entries : List (String × Value))
      (regs regs' : List ℕ) (f : FieldMapping)
      → encode_loop fl js count fields order entries regs ≡ done regs'
      → All (λ (p : String × Value). Apart fields f p.0) entries
      → slice regs' f.offset (required_registers f.data_type)
        ≡ slice regs f.offset (required_registers f.data_type)
  unfolding encode_loop
  slice-encode_loop count fields order [] regs regs' f e apart = cc
  slice-encode_loop count fields order ((name, v) ∷ rest) regs regs' f e (apart, others) =
      let (mid, first, later) = >>=-eq-done _ _ e in
      let (g, x, d, w) = encode_entry-Wrote fl js count fields order name v regs mid first in
      slice-encode_loop count fields order rest mid regs' f later others
      ∙ rw w.result (
          slice-written_ne (bytes_to_registers d) regs g.offset f.offset
            (required_registers f.data_type)
            (omega (arith, apart g w.known, w.data_bytes.registers)))

  -- A field whose registers hold the bytes of `x` is read as the stored value of `x`.
  parse_field-Payload :
      (regs : List ℕ) (order : ByteOrder) (f : FieldMapping) (x : F64) (d : List ℕ)
      → Payload fl js x f order d
      → end_of f ≤ length regs
      → slice regs f.offset (required_registers f.data_type) ≡ bytes_to_registers d
      → parse_field fl regs order f
        ≡ some (record { name = f.name; value = stored fl x f.data_type; data_type = f.data_type })
  unfolding parse_field
  parse_field-Payload regs order f x d p fits e =
      ground
        (arith, extract_bytes-slice f.data_type regs d f.offset p.size p.bytes fits e, p.decoded)

  -- The value that a field is read as.
  abbrev pub parsed_as : F64 → FieldMapping → ParsedField F64
  parsed_as x f = record { name = f.name; value = stored fl x f.data_type; data_type = f.data_type }

  Wrote-parse_field :
      (count : ℕ) (fields : List FieldMapping) (order : ByteOrder) (after : List (String × Value))
      (name : String) (v : Value) (regs mid regs' : List ℕ) (f : FieldMapping) (x : F64)
      (d : List ℕ)
      → Wrote fl js fields order name v regs mid f x d
      → encode_loop fl js count fields order after mid ≡ done regs'
      → All (λ (p : String × Value). Apart fields f p.0) after
      → parse_field fl regs' order f ≡ some (parsed_as x f)
  Wrote-parse_field count fields order after name v regs mid regs' f x d w later apart =
      let there : slice mid f.offset (length (bytes_to_registers d)) ≡ bytes_to_registers d =
        rw w.result (
          slice-written_self regs (bytes_to_registers d) f.offset
            (omega (arith, w.fits, w.data_bytes.registers))) in
      let total = length-encode_loop count fields order after mid regs' later in
      parse_field-Payload regs' order f x d w.data_bytes
        (omega (arith, total, length-Wrote w, w.fits))
        (slice-encode_loop count fields order after mid regs' f later apart
          ∙ rw (sym w.data_bytes.registers) there)

  encode_loop-parse_field :
      (count : ℕ) (fields : List FieldMapping) (order : ByteOrder)
      (before after : List (String × Value)) (name : String) (v : Value) (regs regs' : List ℕ)
      (f : FieldMapping) (x : F64)
      → encode_loop fl js count fields order (before ++ (name, v) ∷ after) regs ≡ done regs'
      → map_field name fields ≡ some f
      → as_f64 v ≡ some x
      → All (λ (p : String × Value). Apart fields f p.0) after
      → parse_field fl regs' order f ≡ some (parsed_as x f)
  unfolding encode_loop
  encode_loop-parse_field count fields order [] after name v regs regs' f x e known number apart =
      let (mid, first, later) = >>=-eq-done _ _ e in
      let (g, y, d, w) = encode_entry-Wrote fl js count fields order name v regs mid first in
      let same_field : f ≡ g = cc (w.known) in
      let same_value : x ≡ y = cc (w.number) in
      subst (λ h. parse_field fl regs' order h ≡ some (parsed_as x h)) (sym same_field)
        (subst (λ z. parse_field fl regs' order g ≡ some (parsed_as z g)) (sym same_value)
          (Wrote-parse_field count fields order after name v regs mid regs' g y d w later
            (subst (λ h. All (λ (p : String × Value). Apart fields h p.0) after) same_field apart)))
  encode_loop-parse_field count fields order ((n, u) ∷ before) after name v regs regs' f x e known
        number apart =
      let (mid, first, later) =
        >>=-eq-done (encode_entry fl js count fields order n u regs)
          (encode_loop fl js count fields order (before ++ (name, v) ∷ after)) e in
      encode_loop-parse_field count fields order before after name v mid regs' f x later known
        number apart

  parse_signal_group_fields-Memᴰ :
      (regs : List ℕ) (fields : List FieldMapping) (order : ByteOrder) (name : String)
      (f : FieldMapping) (p : ParsedField F64)
      → map_field name fields ≡ some f
      → parse_field fl regs order f ≡ some p
      → Memᴰ p (parse_signal_group_fields fl regs fields order)
  unfolding map_field parse_signal_group_fields
  parse_signal_group_fields-Memᴰ regs [] order name f p known e = cc
  parse_signal_group_fields-Memᴰ regs (g ∷ rest) order name f p known e =
      elim (Option-cases (map_field name rest)) [
        | inr (h, later) ↦
            Memᴰ-append_right _
              (parse_signal_group_fields-Memᴰ regs rest order name f p (ground (arith, later)) e)
        | inl last ↦
            let same : g ≡ f = ground (arith, last) in
            let here : parse_field fl regs order g ≡ some p = rw same e in rw here (Memᴰ.head refl)
      ]

  -- Encoding the values of a write and parsing the registers gives the values back: if the encoding
  -- succeeds, the field that an entry's name stands for is among the parsed ones with the value that
  -- its type stores for the entry's number, unless a later entry writes to a register of the field.
  pub encode-parse :
      (entries before after : List (String × Value)) (fields : List FieldMapping) (count : ℕ)
      (order : ByteOrder) (name : String) (v : Value) (regs : List ℕ) (f : FieldMapping) (x : F64)
      → encode_fields_to_registers fl js entries fields count order ≡ done regs
      → entries ≡ before ++ (name, v) ∷ after
      → map_field name fields ≡ some f
      → as_f64 v ≡ some x
      → All (λ (p : String × Value). Apart fields f p.0) after
      → Memᴰ (parsed_as x f) (parse_signal_group_fields fl regs fields order)
  unfolding encode_fields_to_registers
  encode-parse entries before after fields count order name v regs f x e split known number apart =
      parse_signal_group_fields-Memᴰ regs fields order name f (parsed_as x f) known (
        encode_loop-parse_field count fields order before after name v (replicate count 0) regs f x
          (rw split at e) known number apart)
