-- ===== src/Modbus/Pool.antt =====
-- `ModbusConnectionPool` of workers/modbus/client.rs: connections that are lent and given back.
pub mod Account
pub mod Reuse
pub mod Order
mod Tests
use roboplc_middle.Prelude.{
  ℕ, zero, suc, ◌+◌, ◌-◌, ◌%◌, ◌^◌, Bool, true, false, ◌&&◌, String, List, [], ◌∷◌, ◌++◌, ltb,
  if◌then◌else◌, length, push_back,
}
use roboplc_middle.Prelude.Text.{codes}
use roboplc_middle.Prelude.Json.{Json}
use roboplc_middle.Modbus.Io.{Io, Outcome, ok, err}
use roboplc_middle.Modbus.Client.{ModbusOp, OperationResult, Reply, failed, dispatch_op_static}
use roboplc_middle.Modbus.Client.Retry.{default_connect_timeout}

-- Times are microseconds.
pub record PooledConnection (Client : Type 0) : Type 0 where
  pub client : Client
  pub last_used : ℕ
  pub is_healthy : Bool

-- The lock and the atomics are left out: an operation below is what one thread does under the
-- lock, or one atomic change. `pool_size` and `total_created` are usize, `transaction_id` is u16.
pub record ModbusConnectionPool (Client : Type 0) : Type 0 where
  pub endpoint : List ℕ
  pub unit_id : ℕ
  pub pool_size : ℕ
  pub health_check_interval : ℕ
  pub available : List (PooledConnection Client)
  pub total_created : ℕ
  pub transaction_id : ℕ

-- `fetch_add(1)` and `fetch_sub(1)` of an `AtomicUsize`.
abbrev pub increment : ℕ → ℕ
increment n = (n + 1) % 2 ^ 64

abbrev pub decrement : ℕ → ℕ
decrement n = (n + (2 ^ 64 - 1)) % 2 ^ 64

module _ {Client : Type 0} where
  unfoldable pub new : List ℕ → ℕ → ℕ → ℕ → ModbusConnectionPool Client
  new endpoint unit_id pool_size health_check_interval = record {
    endpoint = endpoint;
    unit_id = unit_id;
    pool_size = pool_size;
    health_check_interval = health_check_interval;
    available = [];
    total_created = 0;
    transaction_id = 1;
  }

  -- `Clone::clone`: the configuration, with no connection.
  unfoldable pub clone : ModbusConnectionPool Client → ModbusConnectionPool Client
  clone p = record p { available = []; total_created = 0; transaction_id = 1 }

  -- `elapsed` is zero when the clock went back.
  unfoldable pub age : ℕ → PooledConnection Client → ℕ
  age now c = now - c.last_used

  -- What ends the loop that cleans the front.
  abbrev pub is_fresh : ℕ → ℕ → PooledConnection Client → Bool
  unfolding age
  is_fresh now interval c = c.is_healthy && ltb (age now c) interval

  -- The loop that drops unhealthy and expired connections at the front, with the counter.
  unfoldable pub clean_front :
      ℕ → ℕ → List (PooledConnection Client) → ℕ → List (PooledConnection Client) × ℕ
  clean_front now interval [] total = ([], total)
  clean_front now interval (front ∷ rest) total =
      let cleaned = clean_front now interval rest (decrement total) in
      if is_fresh now interval front then (front ∷ rest, total) else cleaned

  unfoldable pub release_connection :
      ℕ → ModbusConnectionPool Client → Client → Bool → ModbusConnectionPool Client
  release_connection now p client false = record p { total_created = decrement p.total_created }
  release_connection now p client true =
      if ltb (length p.available) p.pool_size
      then record p {
        available =
            push_back p.available (record { client = client; last_used = now; is_healthy = true });
      }
      else record p { total_created = decrement p.total_created }

module _ (io : Io) where
  abbrev pub Leased : Type 0
  Leased = ModbusConnectionPool io.Client × io.State × Outcome io.Client

  abbrev pub created : ModbusConnectionPool io.Client → io.State × Outcome io.Client → Leased
  created p (s, ok client) = (record p { total_created = increment p.total_created }, s, ok client)
  created p (s, err e) = (p, s, err e)

  unfoldable pub create_connection : ModbusConnectionPool io.Client → io.State → Leased
  create_connection p s = created p (io.connect p.endpoint default_connect_timeout s)

  -- What follows the cleaning: the front is lent, or a connection is opened.
  abbrev pub lend :
      ModbusConnectionPool io.Client → io.State → List (PooledConnection io.Client) × ℕ → Leased
  unfolding create_connection
  lend p s ([], total) = create_connection (record p { available = []; total_created = total }) s
  lend p s (pooled ∷ rest, total) =
      (record p { available = rest; total_created = total }, s, ok pooled.client)

  unfoldable pub acquire_connection : ModbusConnectionPool io.Client → io.State → Leased
  unfolding clean_front
  acquire_connection p s =
      lend p s (clean_front (io.now s) p.health_check_interval p.available p.total_created)

module _ {F64 : Type 0} (js : Json F64) (io : Io) where
  -- What follows `acquire_connection`.
  unfoldable pub execute_leased :
      ModbusOp → Leased io → ModbusConnectionPool io.Client × Reply js io
  unfolding dispatch_op_static release_connection
  execute_leased op (p, s, err e) = (p, (s, failed js io (codes "Pool connection failed: " ++ e)))
  execute_leased op (p, s, ok client) =
      let (s', r) = dispatch_op_static js io client p.unit_id op s in
      let counted = record p { transaction_id = (p.transaction_id + 1) % 2 ^ 16 } in
      (release_connection (io.now s') counted client r.success, (s', r))

  unfoldable pub execute_operation :
      ModbusOp
      → ModbusConnectionPool io.Client
      → io.State
      → ModbusConnectionPool io.Client × Reply js io
  unfolding acquire_connection
  execute_operation op p s = execute_leased op (acquire_connection io p s)
