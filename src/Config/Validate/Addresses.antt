-- ===== src/Config/Validate/Addresses.antt =====
-- The register addresses that `Config::validate` (config.rs) lets through, and what
-- `parse_register_address` (workers/modbus/operations.rs) makes of them.
use roboplc_middle.Prelude.{
  ℕ, ◌+◌, ◌-◌, ◌*◌, ◌≤◌, ◌≡◌, ◌≢◌, refl, arith, true, String, List, [], ◌∷◌, Option, none, some,
  Option-cases, inl, inr,
}
use roboplc_middle.Config.{SignalGroup, Device, Config}
use roboplc_middle.Config.Validate.{
  valid, panicked, is_prefix, validate_number, validate_trimmed, validate_address, validate_groups,
  validate_devices, validate,
}
use roboplc_middle.Modbus.Address.{
  RegisterType, trim, parse_digits, parse_unsigned, prefix_type, parse_trimmed,
  parse_register_address,
}

parse_digits-grows : (top : ℕ) (s : List ℕ) (a n : ℕ) → parse_digits top s a ≡ some n → a ≤ n
unfolding parse_digits
parse_digits-grows top [] a n e = ground arith
parse_digits-grows top (c ∷ s) a n e =
    ground (arith, parse_digits-grows top s (a * 10 + (c - b'0')) n)

-- A result within a smaller maximum is the result under that maximum.
parse_digits-smaller :
    (top small : ℕ) (s : List ℕ) (a n : ℕ)
    → parse_digits top s a ≡ some n
    → n ≤ small
    → parse_digits small s a ≡ some n
unfolding parse_digits
parse_digits-smaller top small [] a n e h = e
parse_digits-smaller top small (c ∷ s) a n e h = ground (
  arith,
  parse_digits-grows top s (a * 10 + (c - b'0')) n,
  parse_digits-smaller top small s (a * 10 + (c - b'0')) n,
)

parse_unsigned-smaller :
    (top small : ℕ) (s : List ℕ) (n : ℕ)
    → parse_unsigned top s ≡ some n
    → n ≤ small
    → parse_unsigned small s ≡ some n
unfolding parse_unsigned
parse_unsigned-smaller top small [] n e h = e
parse_unsigned-smaller top small (c ∷ []) n e h =
    ground (arith, parse_digits-smaller top small (c ∷ []) 0 n)
parse_unsigned-smaller top small (c ∷ d ∷ s) n e h = ground (
  arith,
  parse_digits-smaller top small (d ∷ s) 0 n,
  parse_digits-smaller top small (c ∷ d ∷ s) 0 n,
)

is_prefix-prefix_type_ne : (c : ℕ) → is_prefix c ≡ true → prefix_type c ≢ none
unfolding is_prefix prefix_type
is_prefix-prefix_type_ne c h = ground arith

is_prefix-prefix_type : (c : ℕ) → is_prefix c ≡ true → (r : RegisterType) × (prefix_type c ≡ some r)
is_prefix-prefix_type c h = elim (Option-cases (prefix_type c)) [
  | inl unknown ↦ absurd (is_prefix-prefix_type_ne c h unknown)
  | inr known ↦ known
]

validate_number-valid :
    (device group : String) (addr : List ℕ) (o : Option ℕ)
    → validate_number device group addr o ≡ valid
    → (n : ℕ) × (o ≡ some n) × (n ≤ 65535)
validate_number-valid device group addr none e = absurd (cc e)
validate_number-valid device group addr (some n) e = (n, refl, ground arith)

validate_trimmed-inv :
    (device group : String) (c : ℕ) (s : List ℕ)
    → validate_trimmed device group (c ∷ s) ≡ valid
    → (is_prefix c ≡ true)
      × (validate_number device group (c ∷ s) (parse_unsigned 4294967295 s) ≡ valid)
validate_trimmed-inv device group c s e = (ground arith, ground arith)

parse_trimmed-prefixed :
    (c : ℕ) (s : List ℕ) (r : RegisterType) (n : ℕ)
    → prefix_type c ≡ some r
    → parse_unsigned 65535 s ≡ some n
    → parse_trimmed (c ∷ s) ≡ some (r, n)
parse_trimmed-prefixed c s r n by_prefix number = ground arith

validate_trimmed-parse :
    (device group : String) (addr : List ℕ)
    → validate_trimmed device group addr ≡ valid
    → (r : RegisterType) × (n : ℕ) × (parse_trimmed addr ≡ some (r, n)) × (n ≤ 65535)
validate_trimmed-parse device group [] e = absurd (cc e)
validate_trimmed-parse device group (c ∷ s) e =
    let (known, number) = validate_trimmed-inv device group c s e in
    let (r, by_prefix) = is_prefix-prefix_type c known in
    let (n, parsed, small) =
      validate_number-valid device group (c ∷ s) (parse_unsigned 4294967295 s) number in
    let parsed16 = parse_unsigned-smaller 4294967295 65535 s n parsed small in
    (r, n, parse_trimmed-prefixed c s r n by_prefix parsed16, small)

-- The address of a group that passes the validation is parsed, so a request on the group never
-- fails for its address: the parser gives a register type and a number of 16 bits.
pub validate_address-parse :
    (device : String) (g : SignalGroup)
    → validate_address device g ≡ valid
    → (r : RegisterType) × (n : ℕ) × (parse_register_address g.register_address ≡ some (r, n))
      × (n ≤ 65535)
unfolding validate_address parse_register_address
validate_address-parse device g e = validate_trimmed-parse device g.name (trim g.register_address) e

-- A configuration whose first group has an address that begins, spaces apart, with a character
-- beyond ASCII is not refused: the validation panics.
pub validate-panics :
    (d : Device) (devices : List Device) (g : SignalGroup) (groups : List SignalGroup) (c : ℕ)
    (s : List ℕ) (config : Config)
    → config.devices ≡ d ∷ devices
    → d.signal_groups ≡ g ∷ groups
    → trim g.register_address ≡ c ∷ s
    → 128 ≤ c
    → validate config ≡ panicked
unfolding validate validate_devices validate_groups validate_address
validate-panics d devices g groups c s config first_device first_group address beyond =
    let bad : validate_trimmed d.id g.name (c ∷ s) ≡ panicked = ground arith in
    rw (first_device, first_group, address, bad) refl
