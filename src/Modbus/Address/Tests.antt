-- ===== src/Modbus/Address/Tests.antt =====
-- Runs of the address parser.
use roboplc_middle.Prelude.{◌≡◌, refl, some, none}
use roboplc_middle.Prelude.Text.{codes}
use roboplc_middle.Modbus.Address.{
  RegisterType, trim, is_whitespace, prefix_type, parse_unsigned, parse_register_address,
}

holding_100 : parse_register_address (codes "  H100 ") ≡ some (RegisterType.holding, 100)
unfolding parse_register_address trim is_whitespace prefix_type parse_unsigned
holding_100 = refl

no_prefix : parse_register_address (codes "65535") ≡ some (RegisterType.holding, 65535)
unfolding parse_register_address trim is_whitespace prefix_type parse_unsigned
no_prefix = refl

too_large : parse_register_address (codes "h999999") ≡ none
unfolding parse_register_address trim is_whitespace prefix_type parse_unsigned
too_large = refl

signed : parse_register_address (codes "c+7") ≡ some (RegisterType.coil, 7)
unfolding parse_register_address trim is_whitespace prefix_type parse_unsigned
signed = refl
