-- ===== src/Modbus/Address.antt =====
-- Register types and addresses (workers/modbus/operations.rs).
mod Tests
use roboplc_middle.Prelude.{
  ℕ, zero, suc, ◌+◌, ◌-◌, ◌*◌, ◌≤◌, Bool, true, false, ◌&&◌, ◌||◌, List, [], ◌∷◌, Option, none,
  some, ltb, leb, ◌==◌, if◌then◌else◌, ◌>>=◌, ◌^◌, reverse,
}

pub data RegisterType : Type 0 where
  coil discrete input holding : RegisterType

-- The library's `ModbusRegisterKind`, by the names that the program uses.
pub data ModbusRegisterKind : Type 0 where
  coil discrete input holding : ModbusRegisterKind

unfoldable pub prefix : RegisterType → ℕ
prefix RegisterType.coil = b'c'
prefix RegisterType.discrete = b'd'
prefix RegisterType.input = b'i'
prefix RegisterType.holding = b'h'

unfoldable pub is_read_only : RegisterType → Bool
is_read_only RegisterType.discrete = true
is_read_only RegisterType.input = true
is_read_only _ = false

unfoldable pub is_writable : RegisterType → Bool
is_writable RegisterType.coil = true
is_writable RegisterType.holding = true
is_writable _ = false

unfoldable pub to_modbus_register_kind : RegisterType → ModbusRegisterKind
to_modbus_register_kind RegisterType.coil = ModbusRegisterKind.coil
to_modbus_register_kind RegisterType.discrete = ModbusRegisterKind.discrete
to_modbus_register_kind RegisterType.input = ModbusRegisterKind.input
to_modbus_register_kind RegisterType.holding = ModbusRegisterKind.holding

unfoldable pub register_type_from_kind : ModbusRegisterKind → RegisterType
register_type_from_kind ModbusRegisterKind.coil = RegisterType.coil
register_type_from_kind ModbusRegisterKind.discrete = RegisterType.discrete
register_type_from_kind ModbusRegisterKind.input = RegisterType.input
register_type_from_kind ModbusRegisterKind.holding = RegisterType.holding

-- `char::is_whitespace`, the Unicode property White_Space.
unfoldable pub is_whitespace : ℕ → Bool
is_whitespace c =
    leb 0x9 c && leb c 0xd
    || c == 0x20
    || c == 0x85
    || c == 0xa0
    || c == 0x1680
    || leb 0x2000 c && leb c 0x200a
    || c == 0x2028
    || c == 0x2029
    || c == 0x202f
    || c == 0x205f
    || c == 0x3000

unfoldable pub trim_start : List ℕ → List ℕ
trim_start [] = []
trim_start (c ∷ s) = if is_whitespace c then trim_start s else c ∷ s

-- `str::trim`
unfoldable pub trim : List ℕ → List ℕ
unfolding trim_start
trim s = reverse (trim_start (reverse (trim_start s)))

-- The digits that are left of `str::parse` of an unsigned type with the maximum `top`, after the
-- value `n`: an overflow is an error.
unfoldable pub parse_digits : ℕ → List ℕ → ℕ → Option ℕ
parse_digits top [] n = some n
parse_digits top (c ∷ s) n =
    if leb b'0' c && leb c b'9' && leb (n * 10 + (c - b'0')) top
    then parse_digits top s (n * 10 + (c - b'0'))
    else none

-- `str::parse::<u16>` and `str::parse::<u32>`: a sign `+` may stand before the digits, and there is
-- a digit.
unfoldable pub parse_unsigned : ℕ → List ℕ → Option ℕ
unfolding parse_digits
parse_unsigned top [] = none
parse_unsigned top (c ∷ []) = if c == b'+' then none else parse_digits top (c ∷ []) 0
parse_unsigned top (c ∷ d ∷ s) =
    if c == b'+' then parse_digits top (d ∷ s) 0 else parse_digits top (c ∷ d ∷ s) 0

-- The register type that a first character selects, in either case.
unfoldable pub prefix_type : ℕ → Option RegisterType
prefix_type c =
    if c == b'h' || c == b'H'
    then some RegisterType.holding
    else if c == b'i' || c == b'I'
    then some RegisterType.input
    else if c == b'c' || c == b'C'
    then some RegisterType.coil
    else if c == b'd' || c == b'D'
    then some RegisterType.discrete
    else none

-- The type and the numeric part of a trimmed address.
abbrev pub split_prefix : ℕ → List ℕ → RegisterType × List ℕ
split_prefix c s = elim (prefix_type c) [
  | some reg_type ↦ (reg_type, s)
  | none ↦ (RegisterType.holding, c ∷ s)
]

abbrev pub parse_trimmed : List ℕ → Option (RegisterType × ℕ)
parse_trimmed [] = none
parse_trimmed (c ∷ s) =
    let (reg_type, num_part) = split_prefix c s in
    elim (parse_unsigned 65535 num_part) [ none ↦ none | some address ↦ some (reg_type, address) ]

unfoldable pub parse_register_address : List ℕ → Option (RegisterType × ℕ)
parse_register_address addr_str = parse_trimmed (trim addr_str)
