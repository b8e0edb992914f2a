-- ===== src/Config/Validate/Tests.antt =====
-- Runs of the validation, and the theorems at concrete inputs.
use roboplc_middle.Prelude.{ℕ, ◌≤◌, ◌≡◌, ◌↔◌, refl, true, List, [], ◌∷◌, some}
use roboplc_middle.Prelude.Text.{codes}
use roboplc_middle.Config.{
  u16, f64, FieldMapping, SignalGroup, Device, Config, plc, zero_based, big_endian,
  required_registers,
}
use roboplc_middle.Config.Validate.{
  valid, invalid, duplicate_device_id, validate_fields, validate_group, validate_address,
  validate_groups, validate_devices, validate_streams, validate,
}
use roboplc_middle.Config.Validate.Sound.{ConfigValid, validate_iff}
use roboplc_middle.Config.Validate.Addresses.{validate_address-parse}
use roboplc_middle.Modbus.Address.{
  RegisterType, trim, is_whitespace, parse_unsigned, parse_register_address,
}

abbrev speed : FieldMapping
speed = record { name = "speed"; data_type = u16; offset = 0 }

abbrev torque : FieldMapping
torque = record { name = "torque"; data_type = f64; offset = 1 }

abbrev sensors : SignalGroup
sensors = record {
  name = "sensors";
  description = "";
  register_address = codes " h100";
  register_count = 5;
  fields = speed ∷ torque ∷ [];
}

abbrev device : List SignalGroup → Device
device groups = record {
  id = "plc-1";
  device_type = plc;
  address = "10.0.0.1";
  port = 502;
  unit_id = 1;
  addressing_mode = zero_based;
  byte_order = big_endian;
  tcp_nodelay = true;
  max_concurrent_ops = 10;
  max_pool_size = 5;
  heartbeat_interval_sec = 30;
  pool_health_check_interval_sec = 30;
  signal_groups = groups;
}

abbrev one_device : Config
one_device = record { devices = device (sensors ∷ []) ∷ []; streams = [] }

accepted : validate one_device ≡ valid
unfolding validate validate_devices validate_groups validate_address validate_group validate_fields
    validate_streams required_registers trim is_whitespace parse_unsigned
accepted = refl

twice :
    validate (record { devices = device [] ∷ device [] ∷ []; streams = [] })
    ≡ invalid (duplicate_device_id "plc-1")
unfolding validate validate_devices validate_groups
twice = refl

validate_iff_example : (validate one_device ≡ valid) ↔ ConfigValid one_device
validate_iff_example = validate_iff one_device

validate_address-parse_example :
    (r : RegisterType) × (n : ℕ) × (parse_register_address (codes " h100") ≡ some (r, n))
    × (n ≤ 65535)
unfolding validate_address trim is_whitespace parse_unsigned
validate_address-parse_example = validate_address-parse "plc-1" sensors refl

abbrev accented : SignalGroup
accented = record sensors { register_address = 233 ∷ codes "100" }
