-- ===== src/Config/Validate.antt =====
-- `Config::validate`, `SignalGroup::validate` and `StreamConfig::validate` of config.rs. An error
-- is a constructor with the arguments of its message.
pub mod Sound
pub mod Addresses
mod Tests
use text.Mathlib.Text.{◌==◌ as str_eq}
use roboplc_middle.Prelude.{
  ℕ, zero, suc, ◌+◌, ◌≤◌, Bool, true, false, ◌&&◌, ◌||◌, not, String, List, [], ◌∷◌, Option, none,
  some, ltb, leb, ◌==◌, if◌then◌else◌,
}
use roboplc_middle.Config.{
  FieldMapping, SignalGroup, Device, StreamConfig, Config, required_registers, saturating_add16,
}
use roboplc_middle.Modbus.Address.{trim, parse_unsigned}

pub data GroupError : Type 0 where
  duplicate_field : String → String → GroupError
  too_few_registers : String → String → ℕ → ℕ → GroupError

pub data ConfigError : Type 0 where
  duplicate_device_id : String → ConfigError
  invalid_address_format : String → String → List ℕ → ConfigError
  address_out_of_range : String → String → ℕ → ConfigError
  signal_group_validation : String → GroupError → ConfigError
  stream_config_validation : ℕ → ConfigError

-- The outcome of a check that may panic.
pub data Check (E : Type 0) : Type 0 where
  valid : Check E
  invalid : E → Check E
  panicked : Check E

infixr 5 ◌then_check◌
abbrev pub ◌then_check◌ : {E : Type 0} → Check E → Check E → Check E
valid then_check c = c
invalid e then_check c = invalid e
panicked then_check c = panicked

-- `HashSet::contains`, for `insert` that answers whether the value is new.
unfoldable pub contains : List String → String → Bool
contains [] s = false
contains (x ∷ xs) s = str_eq x s || contains xs s

unfoldable pub validate_fields : SignalGroup → List String → List FieldMapping → Check GroupError
validate_fields g seen [] = valid
validate_fields g seen (f ∷ fields) =
    let rest = validate_fields g (f.name ∷ seen) fields in
    let required = required_registers f.data_type in
    if contains seen f.name
    then invalid (duplicate_field f.name g.name)
    else if ltb g.register_count (saturating_add16 f.offset required)
    then invalid (too_few_registers f.name g.name required g.register_count)
    else rest

-- `SignalGroup::validate`
unfoldable pub validate_group : SignalGroup → Check GroupError
unfolding contains
validate_group g = validate_fields g [] g.fields

-- The bytes of a code point in UTF-8.
abbrev pub utf8_len : ℕ → ℕ
utf8_len c = if ltb c 0x80 then 1 else if ltb c 0x800 then 2 else if ltb c 0x1_0000 then 3 else 4

-- `str::len`
abbrev pub byte_len : List ℕ → ℕ
byte_len [] = 0
byte_len (c ∷ s) = utf8_len c + byte_len s

-- `addr[0..1].to_lowercase()`, one ASCII character, is one of "h", "d", "c" and "i".
abbrev pub to_ascii_lowercase : ℕ → ℕ
to_ascii_lowercase c = if leb b'A' c && leb c b'Z' then c + 32 else c

unfoldable pub is_prefix : ℕ → Bool
is_prefix c = let l = to_ascii_lowercase c in l == b'h' || l == b'd' || l == b'c' || l == b'i'

abbrev pub validate_number : String → String → List ℕ → Option ℕ → Check ConfigError
validate_number device group addr none = invalid (invalid_address_format device group addr)
validate_number device group addr (some num) =
    if ltb 65535 num then invalid (address_out_of_range device group num) else valid

-- The address of a group, trimmed: slicing the first byte off panics inside a longer character.
abbrev pub validate_trimmed : String → String → List ℕ → Check ConfigError
validate_trimmed device group [] = invalid (invalid_address_format device group [])
validate_trimmed device group (c ∷ s) =
    if ltb (byte_len (c ∷ s)) 2
    then invalid (invalid_address_format device group (c ∷ s))
    else if ltb 1 (utf8_len c)
    then panicked
    else if not (is_prefix c)
    then invalid (invalid_address_format device group (c ∷ s))
    else validate_number device group (c ∷ s) (parse_unsigned 4294967295 s)

unfoldable pub validate_address : String → SignalGroup → Check ConfigError
unfolding is_prefix
validate_address device g = validate_trimmed device g.name (trim g.register_address)

abbrev pub group_error : String → Check GroupError → Check ConfigError
group_error device valid = valid
group_error device (invalid e) = invalid (signal_group_validation device e)
group_error device panicked = panicked

unfoldable pub validate_groups : String → List SignalGroup → Check ConfigError
validate_groups device [] = valid
validate_groups device (g ∷ groups) =
    validate_address device g
    then_check group_error device (validate_group g)
    then_check validate_groups device groups

unfoldable pub validate_devices : List String → List Device → Check ConfigError
validate_devices seen [] = valid
validate_devices seen (d ∷ devices) =
    let rest =
      validate_groups d.id d.signal_groups then_check validate_devices (d.id ∷ seen) devices in
    if contains seen d.id then invalid (duplicate_device_id d.id) else rest

-- `StreamConfig::validate`
unfoldable pub validate_stream : StreamConfig → Check ConfigError
validate_stream s =
    if ltb s.poll_interval_ms 5 || ltb 5000 s.poll_interval_ms
    then invalid (stream_config_validation s.poll_interval_ms)
    else valid

unfoldable pub validate_streams : List StreamConfig → Check ConfigError
validate_streams [] = valid
validate_streams (s ∷ streams) = validate_stream s then_check validate_streams streams

-- `Config::validate`
unfoldable pub validate : Config → Check ConfigError
unfolding contains
validate c = validate_devices [] c.devices then_check validate_streams c.streams
