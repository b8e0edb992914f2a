-- ===== src/Modbus/Handler/Control.antt =====
-- `handle_device_control` (workers/modbus/handler.rs) and the task that it spawns.
use roboplc_middle.Prelude.{
  ℕ, Bool, true, false, String, List, [], ◌∷◌, ◌++◌, Option, none, some, length,
}
use roboplc_middle.Prelude.Text.{codes}
use roboplc_middle.Prelude.Float.{Float}
use roboplc_middle.Prelude.Attempt.{Attempt, done, nothing, panicked}
use roboplc_middle.Prelude.Json.{Json}
use roboplc_middle.Config.{ByteOrder, FieldMapping, Device}
use roboplc_middle.Modbus.Io.{Io}
use roboplc_middle.Modbus.Client.{ModbusOp, OperationResult, Reply, succeeded, failed}
use roboplc_middle.Modbus.Pool.{ModbusConnectionPool, execute_operation}
use roboplc_middle.Modbus.State.{
  connected, DeviceEvent, same_state, debug_state, Worker, Connected, try_acquire_operation_atomic,
  complete_operation, ensure_connected,
}
use roboplc_middle.Modbus.Handler.{
  Operation, read_signal_group, write_signal_group, get_status, resolve_signal_group, param,
  operation_to_modbus_op,
}
use roboplc_middle.Modbus.Handler.Reply.{
  join, or_else, Task, Handled, responded, spawned, crashed, response_data, incomplete,
}

module _ (fl : Float) (js : Json fl.F64) (io : Io) where
  open js use {Value}

  -- The worker, the network, the pushed events, and what the handler does with them.
  abbrev pub Outcome : Type 0
  Outcome = Worker io × io.State × List DeviceEvent × Handled Value io.Client

  abbrev pub refuse : Worker io → io.State → List DeviceEvent → List ℕ → Outcome
  refuse w s events e = (w, s, events, responded (failed js io e))

  abbrev pub status : Worker io → Value
  unfolding same_state
  status w = js.object (
      ("device_id", js.of_str w.device.id)
      ∷ ("connected", js.of_bool (same_state w.connection_state connected))
      ∷ ("connection_state", js.of_str (debug_state w.connection_state))
      ∷ ("last_communication_ms", js.of_u64 (length w.device.signal_groups))
      ∷ [])

  abbrev pub group_data : String → Device → Option (List FieldMapping × ByteOrder)
  unfolding resolve_signal_group
  group_data group_name device = elim (resolve_signal_group group_name device.signal_groups) [
    | none ↦ none
    | some g ↦ some (g.fields, device.byte_order)
  ]

  -- The task is spawned unless fields are missing.
  unfoldable pub spawn_unless :
      List String
      → Task
      → ModbusConnectionPool io.Client
      → Worker io
      → io.State
      → List DeviceEvent
      → Outcome
  unfolding complete_operation
  spawn_unless [] task pool w s events = (w, s, events, spawned task pool)
  spawn_unless (f ∷ fs) task pool w s events = refuse (complete_operation w) s events (
      codes "Incomplete signal group: missing fields ["
      ++ join (f ∷ fs)
      ++ codes "]. All fields must be provided.")

  unfoldable pub spawn :
      Operation
      → Value
      → Option ModbusOp
      → ModbusConnectionPool io.Client
      → Worker io
      → io.State
      → List DeviceEvent
      → Outcome
  unfolding incomplete spawn_unless group_data
  spawn operation params modbus_op pool w s events =
      let group_name = or_else (param fl js params "group_name" js.as_str) "" in
      spawn_unless (incomplete fl js w.device operation group_name params)
        (record {
          modbus_op = modbus_op;
          group_name = group_name;
          fields_data = group_data group_name w.device;
        })
        pool w s events

  -- What follows `operation_to_modbus_op`; its panic is outside `catch_unwind`.
  unfoldable pub translated :
      Operation
      → Value
      → Attempt ModbusOp
      → ModbusConnectionPool io.Client
      → Worker io
      → io.State
      → List DeviceEvent
      → Outcome
  unfolding spawn
  translated operation params (done op) pool w s events =
      spawn operation params (some op) pool w s events
  translated operation params nothing pool w s events = spawn operation params none pool w s events
  translated operation params panicked pool w s events = (w, s, events, crashed)

  -- With a unit of capacity.
  unfoldable pub with_pool :
      Operation
      → Value
      → Option (ModbusConnectionPool io.Client)
      → Worker io
      → io.State
      → List DeviceEvent
      → Outcome
  unfolding operation_to_modbus_op complete_operation translated
  with_pool operation params none w s events =
      refuse (complete_operation w) s events (codes "Connection pool not available")
  with_pool operation params (some pool) w s events =
      translated operation params (operation_to_modbus_op fl js w.device operation params) pool w s
        events

  unfoldable pub limited :
      Operation → Value → Worker io × Bool → io.State → List DeviceEvent → Outcome
  unfolding with_pool
  limited operation params (w, true) s events =
      with_pool operation params w.connection_pool w s events
  limited operation params (w, false) s events =
      refuse w s events (codes "Too many concurrent operations")

  -- What follows `ensure_connected`.
  unfoldable pub with_connection : Operation → Value → Connected io → Outcome
  unfolding limited try_acquire_operation_atomic status
  with_connection operation params (w, s, events, false) =
      refuse w s events (codes "Device not connected")
  with_connection get_status params (w, s, events, true) =
      (w, s, events, responded (succeeded js io (status w)))
  with_connection read_signal_group params (w, s, events, true) =
      limited read_signal_group params (try_acquire_operation_atomic w) s events
  with_connection write_signal_group params (w, s, events, true) =
      limited write_signal_group params (try_acquire_operation_atomic w) s events

  unfoldable pub handle_device_control : Operation → Value → Worker io → io.State → Outcome
  unfolding ensure_connected with_connection
  handle_device_control operation params w s =
      with_connection operation params (ensure_connected io w s)

  unfoldable pub answer :
      Task
      → ModbusConnectionPool io.Client × Reply js io
      → ModbusConnectionPool io.Client × io.State × OperationResult Value
  answer t (pool, (s, r)) = (
    pool,
    s,
    record {
      success = r.success;
      result = response_data fl js t.group_name t.fields_data r.success r.result;
      error = r.error;
    },
  )

  unfoldable pub run_op :
      Option ModbusOp
      → Task
      → ModbusConnectionPool io.Client
      → io.State
      → ModbusConnectionPool io.Client × io.State × OperationResult Value
  unfolding execute_operation answer
  run_op none t pool s =
      (pool, s, failed js io (codes "Invalid signal group: " ++ codes t.group_name))
  run_op (some op) t pool s = answer t (execute_operation js io op pool s)

  -- The task: its pool and the network, and the one response that it sends.
  unfoldable pub run_task :
      Task
      → ModbusConnectionPool io.Client
      → io.State
      → ModbusConnectionPool io.Client × io.State × OperationResult Value
  unfolding run_op
  run_task t pool s = run_op t.modbus_op t pool s

  -- The task to its end, when the guard gives the capacity back, with nothing in between.
  unfoldable pub finished :
      Outcome → Worker io × io.State × List DeviceEvent × Option (OperationResult Value)
  unfolding run_task complete_operation
  finished (w, s, events, responded r) = (w, s, events, some r)
  finished (w, s, events, spawned t pool) =
      let (pool', s', r) = run_task t pool s in
      (complete_operation (record w { connection_pool = some pool' }), s', events, some r)
  finished (w, s, events, crashed) = (w, s, events, none)

  -- A whole request.
  unfoldable pub request :
      Operation
      → Value
      → Worker io
      → io.State
      → Worker io × io.State × List DeviceEvent × Option (OperationResult Value)
  unfolding handle_device_control finished
  request operation params w s = finished (handle_device_control operation params w s)
