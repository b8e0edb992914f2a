-- ===== src/Modbus/Pool/Tests.antt =====
-- The connection pool at concrete inputs.
use roboplc_middle.Prelude.{ℕ, refl, arith, true, [], ◌∷◌}
use roboplc_middle.Prelude.Text.{codes}
use roboplc_middle.Prelude.Sample.{sample_json}
use roboplc_middle.Modbus.Sample.{sample_io}
use roboplc_middle.Modbus.Client.{read_holding}
use roboplc_middle.Modbus.Pool.{
  PooledConnection, ModbusConnectionPool, acquire_connection, execute_operation,
}
use roboplc_middle.Modbus.Pool.Account.{Accounted, Steps, Steps-Sound, execute_operation-Steps}
use roboplc_middle.Modbus.Pool.Reuse.{Lease, acquire_connection-Lease}
use roboplc_middle.Modbus.Pool.Order.{Idle}

abbrev fresh_pool : ModbusConnectionPool ℕ
fresh_pool = record {
  endpoint = codes "plc:502";
  unit_id = 1;
  pool_size = 2;
  health_check_interval = 30;
  available = [];
  total_created = 0;
  transaction_id = 1;
}

abbrev idle : ℕ → PooledConnection ℕ
idle t = record { client = t; last_used = t; is_healthy = true }

abbrev busy_pool : ModbusConnectionPool ℕ
busy_pool = record fresh_pool { available = idle 3 ∷ idle 80 ∷ []; total_created = 3 }

busy_pool-Accounted : Accounted 1 busy_pool
busy_pool-Accounted = record {
  counted = omega arith;
  fits = omega arith;
  healthy = (refl, (refl, tt));
}

-- A pool with two idle connections and one in use, through a whole operation.
Steps-Sound_example :
    let (p, (s, r)) = execute_operation sample_json sample_io (read_holding 4 2) busy_pool 100 in
    Accounted 1 p
Steps-Sound_example =
    let (p, (s, r)) = execute_operation sample_json sample_io (read_holding 4 2) busy_pool 100 in
    Steps-Sound sample_io (busy_pool, 100, 1) (p, s, 1)
      (execute_operation-Steps sample_json sample_io (read_holding 4 2) busy_pool 100 1)
      busy_pool-Accounted

execute_operation-Steps_example :
    let (p, (s, r)) = execute_operation sample_json sample_io (read_holding 4 2) fresh_pool 0 in
    Steps sample_io (fresh_pool, 0, 0) (p, s, 0)
execute_operation-Steps_example =
    execute_operation-Steps sample_json sample_io (read_holding 4 2) fresh_pool 0 0

busy_pool-Idle : Idle 100 busy_pool.available
busy_pool-Idle = record {
  healthy = (refl, (refl, tt));
  sorted = ((omega arith, tt), (tt, tt));
  past = (omega arith, (omega arith, tt));
}

acquire_connection-Lease_example :
    Lease sample_io busy_pool 100 (acquire_connection sample_io busy_pool 100)
acquire_connection-Lease_example = acquire_connection-Lease sample_io busy_pool 100
