-- ===== src/Modbus/Handler/Tests.antt =====
-- Requests at concrete inputs.
use roboplc_middle.Prelude.{arith, some, ◌≡◌, refl, none, [], ◌∷◌}
use roboplc_middle.Prelude.Sample.{sample_float, sample_json, Tree}
use roboplc_middle.Prelude.Attempt.{done}
use roboplc_middle.Prelude.Json.{lookup}
use roboplc_middle.Config.Validate.{valid, validate_address}
use roboplc_middle.Modbus.Address.{
  prefix_type, parse_register_address, parse_unsigned, trim, is_whitespace,
}
use roboplc_middle.Modbus.Sample.{sample_io, sample_device, sample_group}
use roboplc_middle.Modbus.Client.{OperationResult, write_multiple}
use roboplc_middle.Modbus.State.{Worker, disconnected}
use roboplc_middle.Modbus.Handler.{
  read_signal_group, write_signal_group, param, named_group, operation_to_modbus_op,
  resolve_signal_group, validate_writable, write_op, write_values,
}
use roboplc_middle.Modbus.Handler.Control.{request}
use roboplc_middle.Modbus.Handler.Safety.{SmallGroups, request-answers}
use roboplc_middle.Modbus.Handler.Responses.{Told, Served, Cause, request-Served}

abbrev params : Tree
params = sample_json.object (("group_name", Tree.str "temps") ∷ [])

abbrev write_params : Tree
write_params = sample_json.object (
    ("group_name", Tree.str "temps")
    ∷ ("values", sample_json.array (Tree.num 5 ∷ Tree.num 65537 ∷ []))
    ∷ [])

abbrev worker : Worker sample_io
worker = record {
  device = sample_device;
  connection_pool = none;
  connection_state = disconnected;
  backoff = record { attempts = 0; next_delay_ms = 100 };
  timeout_handler = record { current = 2000; base = 1000; max = 30000 };
  operation_queue = record { pending = []; in_flight = 1; max_in_flight = 2 };
}

request-Served_example :
    let (w, s, events, a) =
      request sample_float sample_json sample_io read_signal_group params worker 0 in
    Served
      (Cause sample_float sample_json sample_io sample_device read_signal_group params
        worker.operation_queue)
      worker.operation_queue
      w.operation_queue
      a
request-Served_example =
    request-Served sample_float sample_json sample_io read_signal_group params worker 0

valid_address : validate_address "plc-1" sample_group ≡ valid
unfolding validate_address trim parse_unsigned is_whitespace
valid_address = refl

found : resolve_signal_group "temps" sample_device.signal_groups ≡ some sample_group
unfolding resolve_signal_group
found = refl

named : param sample_float sample_json params "group_name" sample_json.as_str ≡ some "temps"
unfolding lookup
named = refl

-- The second value is cut to 16 bits.
written :
    operation_to_modbus_op sample_float sample_json sample_device write_signal_group write_params
    ≡ done (write_multiple 10 (5 ∷ 1 ∷ []))
unfolding operation_to_modbus_op named_group resolve_signal_group parse_register_address trim
    parse_unsigned validate_writable write_op write_values is_whitespace prefix_type lookup
written = refl

few_registers : SmallGroups worker.device.signal_groups
few_registers = (omega arith, tt)

request-answers_example :
    let (w, s, events, a) =
      request sample_float sample_json sample_io read_signal_group params worker 0 in
    (r : OperationResult Tree) × (a ≡ some r)
    × Told r
    × (w.operation_queue ≡ worker.operation_queue)
request-answers_example =
    request-answers sample_float sample_json sample_io read_signal_group params worker 0
      few_registers
