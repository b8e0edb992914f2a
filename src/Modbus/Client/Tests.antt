-- ===== src/Modbus/Client/Tests.antt =====
-- The client at concrete inputs.
use roboplc_middle.Prelude.{ℕ, ◌+◌, ◌≡◌, refl, true, false, some, none}
use roboplc_middle.Prelude.Text.{codes}
use roboplc_middle.Prelude.Sample.{sample_json}
use roboplc_middle.Modbus.Sample.{sample_io, sample_meter}
use roboplc_middle.Modbus.Client.{
  read_holding, dispatch_op_static, read_registers_static, read_registers_static_with_tr_id,
  str_contains, is_connection_broken,
}
use roboplc_middle.Modbus.Client.Retry.{ModbusClient, ensure_connected, connect, execute_operation}
use roboplc_middle.Modbus.Client.Recovery.{Answered, one_attempt, execute_operation-Answered}

broken : is_connection_broken (codes "Read failed: I/O error: early eof") ≡ true
unfolding is_connection_broken str_contains
broken = refl

timeout_is_no_break : is_connection_broken (codes "Read failed: timed out") ≡ false
unfolding is_connection_broken str_contains
timeout_is_no_break = refl

abbrev client : ModbusClient ℕ
client = record { endpoint = codes "plc:502"; connection = none; unit_id = 1 }

-- The first read breaks, the client reconnects, and the second one succeeds after six calls.
retry_succeeds :
    let (mc, s, r) = execute_operation sample_json sample_io (read_holding 4 2) client 0 in
    (mc.connection ≡ some 3) × (s ≡ 6) × (r.success ≡ true)
unfolding execute_operation ensure_connected connect dispatch_op_static read_registers_static
    read_registers_static_with_tr_id is_connection_broken str_contains
retry_succeeds = (refl, refl, refl)

execute_operation-Answered_example :
    Answered sample_json sample_io sample_meter 0
      (one_attempt sample_json sample_io sample_meter
        + one_attempt sample_json sample_io sample_meter)
      (execute_operation sample_json sample_io (read_holding 4 2) client 0)
execute_operation-Answered_example =
    execute_operation-Answered sample_json sample_io sample_meter (read_holding 4 2) client 0
