-- ===== src/Modbus/Handler/Keeps.antt =====
-- A request leaves the device of its worker alone (workers/modbus/handler.rs).
use roboplc_middle.Prelude.{◌≡◌, sym, Bool, true, false, String, List, [], ◌∷◌, Option, none, some}
use roboplc_middle.Prelude.Float.{Float}
use roboplc_middle.Prelude.Attempt.{Attempt, done, nothing, panicked}
use roboplc_middle.Prelude.Json.{Json}
use roboplc_middle.Config.{Device}
use roboplc_middle.Modbus.Io.{Io}
use roboplc_middle.Modbus.Client.{ModbusOp}
use roboplc_middle.Modbus.Pool.{ModbusConnectionPool}
use roboplc_middle.Modbus.State.{
  DeviceEvent, Worker, Connected, ensure_connected, try_acquire_operation_atomic,
  complete_operation,
}
use roboplc_middle.Modbus.State.Events.{ensure_connected-Ensured}
use roboplc_middle.Modbus.Handler.{Operation, read_signal_group, write_signal_group, get_status}
use roboplc_middle.Modbus.Handler.Reply.{Task}
use roboplc_middle.Modbus.Handler.Control.{
  Outcome, spawn_unless, spawn, translated, with_pool, limited, with_connection,
  handle_device_control, finished, request,
}
use roboplc_middle.Modbus.Handler.Responses.{Ensured-device}

module _ (fl : Float) (js : Json fl.F64) (io : Io) (d : Device) where
  open js use {Value}

  -- A request that has come to a point ends with the device.
  abbrev Keeps : Outcome fl js io → Type 0
  Keeps o = (finished fl js io o).0.device ≡ d

  spawn_unless-Keeps :
      (missing : List String) (t : Task) (p : ModbusConnectionPool io.Client) (w : Worker io)
      (s : io.State) (events : List DeviceEvent)
      → w.device ≡ d
      → Keeps (spawn_unless fl js io missing t p w s events)
  unfolding spawn_unless finished complete_operation
  spawn_unless-Keeps [] t p w s events h = h
  spawn_unless-Keeps (f ∷ fs) t p w s events h = h

  translated-Keeps :
      (operation : Operation) (params : Value) (o : Attempt ModbusOp)
      (p : ModbusConnectionPool io.Client) (w : Worker io) (s : io.State)
      (events : List DeviceEvent)
      → w.device ≡ d
      → Keeps (translated fl js io operation params o p w s events)
  unfolding translated spawn finished
  translated-Keeps operation params (done op) p w s events h = spawn_unless-Keeps _ _ p w s events h
  translated-Keeps operation params nothing p w s events h = spawn_unless-Keeps _ _ p w s events h
  translated-Keeps operation params panicked p w s events h = h

  with_pool-Keeps :
      (operation : Operation) (params : Value) (o : Option (ModbusConnectionPool io.Client))
      (w : Worker io) (s : io.State) (events : List DeviceEvent)
      → w.device ≡ d
      → Keeps (with_pool fl js io operation params o w s events)
  unfolding with_pool finished complete_operation
  with_pool-Keeps operation params none w s events h = h
  with_pool-Keeps operation params (some p) w s events h =
      translated-Keeps operation params _ p w s events h

  limited-Keeps :
      (operation : Operation) (params : Value) (r : Worker io × Bool) (s : io.State)
      (events : List DeviceEvent)
      → r.0.device ≡ d
      → Keeps (limited fl js io operation params r s events)
  unfolding limited finished
  limited-Keeps operation params (w, true) s events h =
      with_pool-Keeps operation params w.connection_pool w s events h
  limited-Keeps operation params (w, false) s events h = h

  with_connection-Keeps :
      (operation : Operation) (params : Value) (c : Connected io)
      → c.0.device ≡ d
      → Keeps (with_connection fl js io operation params c)
  unfolding with_connection finished try_acquire_operation_atomic
  with_connection-Keeps operation params (w, s, events, false) h = h
  with_connection-Keeps get_status params (w, s, events, true) h = h
  with_connection-Keeps read_signal_group params (w, s, events, true) h =
      limited-Keeps read_signal_group params (try_acquire_operation_atomic w) s events h
  with_connection-Keeps write_signal_group params (w, s, events, true) h =
      limited-Keeps write_signal_group params (try_acquire_operation_atomic w) s events h

module _ (fl : Float) (js : Json fl.F64) (io : Io) where
  pub request-keeps :
      (operation : Operation) (params : js.Value) (w : Worker io) (s : io.State)
      → (request fl js io operation params w s).0.device ≡ w.device
  unfolding request handle_device_control
  request-keeps operation params w s =
      with_connection-Keeps fl js io w.device operation params (ensure_connected io w s)
        (sym (Ensured-device fl js io w _ (ensure_connected-Ensured io w s)))
