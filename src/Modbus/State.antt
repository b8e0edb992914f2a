-- ===== src/Modbus/State.antt =====
-- `ModbusWorkerState` (workers/modbus/state.rs): the pool of a device, its connection state, the
-- adaptive timeout and the operations in flight.
pub mod Events
pub mod Capacity
mod Tests
use roboplc_middle.Prelude.{
  ℕ, ◌*◌, ◌/◌, ◌%◌, ◌^◌, Bool, true, false, min, String, List, [], ◌∷◌, ◌++◌, Option, none, some,
  if◌then◌else◌,
}
use roboplc_middle.Prelude.Text.{codes, decimal}
use roboplc_middle.Prelude.Json.{Json}
use roboplc_middle.Config.{Device, SignalGroup}
use roboplc_middle.Modbus.Io.{Io, Outcome, ok, err}
use roboplc_middle.Modbus.Backoff.{Backoff, new as new_backoff, reset}
use roboplc_middle.Modbus.Timeout.{
  TimeoutHandler, new as new_timeout, timeout, on_timeout, on_success,
}
use roboplc_middle.Modbus.Queue.{
  OperationQueue, quiet, push, pop_if_ready, try_acquire_atomic, complete, new as new_queue,
}
use roboplc_middle.Modbus.Client.{ModbusOp, OperationResult, Reply, failed}
use roboplc_middle.Modbus.Pool.{
  ModbusConnectionPool, new as new_pool, execute_operation as run_on_pool,
}

pub data ConnectionState : Type 0 where
  disconnected connecting connected : ConnectionState

pub data DeviceEventType : Type 0 where
  connected_event disconnected_event reconnecting_event error_event heartbeat_missed_event :
      DeviceEventType

pub record DeviceEvent : Type 0 where
  pub device_id : String
  pub event_type : DeviceEventType
  pub timestamp_ms : ℕ
  pub details : List ℕ

-- `event_type` of `update_connection_state_with`.
unfoldable pub event_type_of : ConnectionState → DeviceEventType
event_type_of connected = connected_event
event_type_of disconnected = disconnected_event
event_type_of connecting = reconnecting_event

-- `{:?}`
abbrev pub debug_state : ConnectionState → String
debug_state disconnected = "Disconnected"
debug_state connecting = "Connecting"
debug_state connected = "Connected"

-- `==` of the derived `PartialEq`.
unfoldable pub same_state : ConnectionState → ConnectionState → Bool
same_state disconnected disconnected = true
same_state connecting connecting = true
same_state connected connected = true
same_state _ _ = false

-- The pool is shared by an `Arc`; it is set once, so there is one pool of a state to keep here.
-- The queue is behind a `Mutex`, so its calls find nobody else there.
pub record ModbusWorkerState (Client : Type 0) : Type 0 where
  pub device : Device
  pub connection_pool : Option (ModbusConnectionPool Client)
  pub connection_state : ConnectionState
  pub backoff : Backoff
  pub timeout_handler : TimeoutHandler
  pub operation_queue : OperationQueue (Unit {0})

-- `Option::is_some`
abbrev pub is_some : {A : Type 0} → Option A → Bool
is_some none = false
is_some (some _) = true

module _ {Client : Type 0} where
  unfoldable pub new : Device → ModbusWorkerState Client
  new device = record {
    device = device;
    connection_pool = none;
    connection_state = disconnected;
    backoff = new_backoff;
    timeout_handler = new_timeout;
    operation_queue = new_queue device.max_concurrent_ops;
  }

  -- Only the signal groups change.
  unfoldable pub update_device_config : ModbusWorkerState Client → Device → ModbusWorkerState Client
  update_device_config w new_device = record w {
    device = record w.device { signal_groups = new_device.signal_groups };
  }

  -- The new state, and what is pushed to the event buffer at a time in microseconds.
  unfoldable pub update_connection_state :
      ModbusWorkerState Client → ConnectionState → ℕ → ModbusWorkerState Client × List DeviceEvent
  unfolding same_state event_type_of
  update_connection_state w new_state now =
      if same_state w.connection_state new_state then (w, []) else (
        record w { connection_state = new_state },
        record {
          device_id = w.device.id;
          event_type = event_type_of new_state;
          timestamp_ms = now / 1000 % 2 ^ 64;
          details = codes "Connection state: " ++ codes (debug_state new_state);
        }
            ∷ [],
      )

  unfoldable pub try_acquire_operation : ModbusWorkerState Client → ModbusWorkerState Client × Bool
  try_acquire_operation w =
      let (q, popped) = pop_if_ready quiet (push w.operation_queue tt) in
      (record w { operation_queue = q }, is_some popped)

  unfoldable pub try_acquire_operation_atomic :
      ModbusWorkerState Client → ModbusWorkerState Client × Bool
  try_acquire_operation_atomic w =
      let (q, acquired) = try_acquire_atomic quiet w.operation_queue in
      (record w { operation_queue = q }, acquired)

  unfoldable pub complete_operation : ModbusWorkerState Client → ModbusWorkerState Client
  complete_operation w = record w { operation_queue = complete quiet w.operation_queue }

  unfoldable pub in_flight_count : ModbusWorkerState Client → ℕ
  in_flight_count w = w.operation_queue.in_flight

module _ (io : Io) where
  abbrev pub Worker : Type 0
  Worker = ModbusWorkerState io.Client

  -- `format!("{}:{}", address, port)`
  abbrev pub endpoint_of : Device → List ℕ
  endpoint_of d = codes d.address ++ codes ":" ++ decimal d.port

  abbrev pub pool_of : Device → ModbusConnectionPool io.Client
  pool_of d =
      new_pool (endpoint_of d) d.unit_id (min d.max_concurrent_ops d.max_pool_size)
        (d.pool_health_check_interval_sec * 1000000)

  abbrev pub pooled : Worker → io.State × Outcome io.Client → Worker × io.State × Outcome (Unit {0})
  pooled w (s, ok _) = (record w { connection_pool = some (pool_of w.device) }, s, ok tt)
  pooled w (s, err e) = (w, s, err e)

  -- The test connection is dropped.
  unfoldable pub connect_pool : Worker → ℕ → io.State → Worker × io.State × Outcome (Unit {0})
  connect_pool w timeout s = pooled w (io.connect (endpoint_of w.device) timeout s)

  -- The worker, the network, the events that are pushed, and the result.
  abbrev pub Connected : Type 0
  Connected = Worker × io.State × List DeviceEvent × Bool

  -- The end of `ensure_connected` with a pool, after earlier events.
  abbrev pub mark_connected : Worker → io.State → List DeviceEvent → Connected
  unfolding update_connection_state
  mark_connected w s events =
      let (w', more) = update_connection_state w connected (io.now s) in
      (
        record w' { timeout_handler = on_success w'.timeout_handler; backoff = reset w'.backoff },
        s,
        events ++ more,
        true,
      )

  -- What follows `connect_pool`.
  abbrev pub connect_result : List DeviceEvent → Worker × io.State × Outcome (Unit {0}) → Connected
  unfolding update_connection_state
  connect_result events (w, s, ok _) = mark_connected w s events
  connect_result events (w, s, err e) =
      let late = record w { timeout_handler = on_timeout w.timeout_handler } in
      let (w', more) = update_connection_state late disconnected (io.now s) in
      (w', s, events ++ more, false)

  -- The two cases of the pool.
  abbrev pub ensure_with : Option (ModbusConnectionPool io.Client) → Worker → io.State → Connected
  unfolding update_connection_state connect_pool
  ensure_with (some _) w s = mark_connected w s []
  ensure_with none w s =
      let (w', events) = update_connection_state w connecting (io.now s) in
      connect_result events (connect_pool w' (timeout w.timeout_handler) s)

  unfoldable pub ensure_connected : Worker → io.State → Connected
  ensure_connected w s = ensure_with w.connection_pool w s

module _ {F64 : Type 0} (js : Json F64) (io : Io) where
  -- An operation of the pool, which is shared.
  abbrev pub on_pool :
      Option (ModbusConnectionPool io.Client)
      → ModbusOp
      → Worker io
      → io.State
      → Worker io × Reply js io
  on_pool none op w s = (w, (s, failed js io (codes "Connection pool not available")))
  on_pool (some p) op w s =
      let (p', reply) = run_on_pool js io op p s in (record w { connection_pool = some p' }, reply)

  unfoldable pub execute_operation_direct :
      ModbusOp → Worker io → io.State → Worker io × Reply js io
  execute_operation_direct op w s = on_pool w.connection_pool op w s

  -- What follows `ensure_connected`, with the events.
  abbrev pub on_connected : ModbusOp → Connected io → Worker io × List DeviceEvent × Reply js io
  on_connected op (w, s, events, true) =
      let (w', reply) = on_pool w.connection_pool op w s in (w', events, reply)
  on_connected op (w, s, events, false) =
      (w, events, (s, failed js io (codes "Failed to establish connection pool")))

  unfoldable pub execute_operation :
      ModbusOp → Worker io → io.State → Worker io × List DeviceEvent × Reply js io
  unfolding ensure_connected
  execute_operation op w s = on_connected op (ensure_connected io w s)
