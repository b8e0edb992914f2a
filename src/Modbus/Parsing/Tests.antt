-- ===== src/Modbus/Parsing/Tests.antt =====
-- Runs of the field parser and encoder, and the theorems at concrete inputs.
use mathlib.Core.Path.{subst}
use mathlib.Core.List.{Memᴰ}
use roboplc_middle.Prelude.{◌≡◌, refl, arith, [], ◌∷◌, List, String, inr}
use roboplc_middle.Prelude.Attempt.{done}
use roboplc_middle.Prelude.Sample.{sample_float, sample_json, wrap, Tree}
use roboplc_middle.Config.{FieldMapping, u16, u32, bool, big_endian, required_registers}
use roboplc_middle.Conversion.{
  bytes_len, from_bytes, to_bytes, decode, canonical, from_be2, be_bytes2, be_bytes4, from_be4,
}
use roboplc_middle.Modbus.Parsing.{
  map_field, parse_field, parse_signal_group_fields, extract_bytes_from_registers,
  bytes_to_registers, byte_count, encode_entry, encode_loop, encode_fields_to_registers,
  write_registers,
}
use roboplc_middle.Modbus.Parsing.Entry.{Apart, Disjoint}
use roboplc_middle.Modbus.Parsing.RoundTrip.{encode-parse, parsed_as}
use roboplc_middle.Modbus.Parsing.Bounds.{Fits}

abbrev speed : FieldMapping
speed = record { name = "speed"; data_type = u16; offset = 0 }

abbrev position : FieldMapping
position = record { name = "position"; data_type = u32; offset = 1 }

abbrev two_fields : List FieldMapping
two_fields = speed ∷ position ∷ []

abbrev two_values : List (String × Tree)
two_values = ("position", Tree.num 66051) ∷ ("speed", Tree.num 7) ∷ []

encoded :
    encode_fields_to_registers sample_float sample_json two_values two_fields 4 big_endian
    ≡ done (7 ∷ 1 ∷ 515 ∷ 0 ∷ [])
unfolding encode_fields_to_registers encode_loop encode_entry map_field to_bytes canonical be_bytes2
    be_bytes4 bytes_to_registers required_registers write_registers
encoded = refl

parsed :
    parse_signal_group_fields sample_float (7 ∷ 1 ∷ 515 ∷ 0 ∷ []) two_fields big_endian
    ≡ record { name = "speed"; value = wrap 7; data_type = u16 }
      ∷ record { name = "position"; value = wrap 66051; data_type = u32 }
      ∷ []
unfolding parse_signal_group_fields parse_field required_registers byte_count
    extract_bytes_from_registers from_bytes bytes_len decode from_be2 from_be4
parsed = refl

-- A field that reaches beyond the registers that were read is left out.
short :
    parse_signal_group_fields sample_float (7 ∷ 1 ∷ []) two_fields big_endian
    ≡ record { name = "speed"; value = wrap 7; data_type = u16 } ∷ []
unfolding parse_signal_group_fields parse_field required_registers byte_count
    extract_bytes_from_registers from_bytes bytes_len decode from_be2
short = refl

speed-Apart : Apart two_fields position "speed"
unfolding map_field required_registers
speed-Apart g e =
    let same : speed ≡ g = cc in subst (λ h. Disjoint position h) same (inr (omega arith))

encode-parse_example :
    Memᴰ
      (parsed_as sample_float sample_json (wrap 66051) position)
      (parse_signal_group_fields sample_float (7 ∷ 1 ∷ 515 ∷ 0 ∷ []) two_fields big_endian)
encode-parse_example =
    encode-parse sample_float sample_json two_values [] (("speed", Tree.num 7) ∷ []) two_fields 4
      big_endian "position" (Tree.num 66051) (7 ∷ 1 ∷ 515 ∷ 0 ∷ []) position (wrap 66051) encoded
      refl (unfold map_field in refl) refl (speed-Apart, tt)

abbrev speed_fits : Fits sample_float sample_json two_fields 4 "speed" (Tree.num 7)
unfolding map_field required_registers
speed_fits = record {
  field = speed;
  number = wrap 7;
  known = refl;
  numeric = refl;
  within = omega arith;
}

abbrev last : FieldMapping
last = record { name = "last"; data_type = bool; offset = 65535 }
