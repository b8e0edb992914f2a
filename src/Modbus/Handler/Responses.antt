-- ===== src/Modbus/Handler/Responses.antt =====
-- What a request to the handler (workers/modbus/handler.rs) answers, and the capacity it gives back.
use mathlib.Core.Path.{subst}
use roboplc_middle.Prelude.{
  ℕ, ◌+◌, ◌≡◌, sym, ap, arith, Bool, true, false, String, List, [], ◌∷◌, Option, none, some,
  if◌then◌else◌,
}
use roboplc_middle.Prelude.Float.{Float}
use roboplc_middle.Prelude.Attempt.{Attempt, done, nothing, panicked}
use roboplc_middle.Prelude.Json.{Json}
use roboplc_middle.Config.{Device}
use roboplc_middle.Modbus.Io.{Io, ok, err}
use roboplc_middle.Modbus.Queue.{OperationQueue, can_start}
use roboplc_middle.Modbus.Client.{ModbusOp, OperationResult}
use roboplc_middle.Modbus.Client.Results.{
  IsConsistent, success_result, error_result, Meter, dispatch_op_static-Bounded,
}
use roboplc_middle.Modbus.Pool.{
  ModbusConnectionPool, Leased, acquire_connection, execute_leased, execute_operation,
}
use roboplc_middle.Modbus.State.{
  DeviceEvent, Worker, Connected, ensure_connected, complete_operation,
  try_acquire_operation_atomic,
}
use roboplc_middle.Modbus.State.Events.{Ensured, online, offline, ensure_connected-Ensured}
use roboplc_middle.Modbus.State.Capacity.{complete_operation-restores, try_acquire-both}
use roboplc_middle.Modbus.Handler.{
  operation_to_modbus_op, Operation, get_status, read_signal_group, write_signal_group,
}
use roboplc_middle.Modbus.Handler.Reply.{Task}
use roboplc_middle.Modbus.Handler.Control.{
  Outcome, spawn_unless, spawn, translated, with_pool, limited, with_connection,
  handle_device_control, answer, run_op, run_task, finished, request,
}

-- A meter that measures nothing.
abbrev no_meter : (io : Io) → Meter io
no_meter io = record {
  reading = λ s. 0;
  connect_cost = 0;
  create_cost = 0;
  transfer_cost = 0;
  connect_le = λ endpoint t s. omega arith;
  create_le = λ c u k a n s. omega arith;
  read_bytes_le = λ m s. omega arith;
  read_words_le = λ m s. omega arith;
  write_word_le = λ m v s. omega arith;
  write_bytes_le = λ m vs s. omega arith;
  write_words_le = λ m vs s. omega arith;
}

-- A success without an error, or a failure with one.
pub data Told {Value : Type 0} : OperationResult Value → Type 0 where
  told_success : (v : Value) → Told (record { success = true; result = v; error = none })
  told_failure :
      (v : Value) (e : List ℕ) → Told (record { success = false; result = v; error = some e })

-- How a request ends for the queue that it found: it is answered and the queue is as before, or, for
-- the cause `C`, it is not answered and a unit of capacity is lost.
pub data Served {Value : Type 0} (C : Type 0) (q : OperationQueue (Unit {0}))
    : OperationQueue (Unit {0}) → Option (OperationResult Value) → Type 0 where
  answered : (r : OperationResult Value) → Told r → Served C q q (some r)
  lost : C → Served C q (record q { in_flight = q.in_flight + 1 }) none

module _ (fl : Float) (js : Json fl.F64) (io : Io) where
  open js use {Value}

  Told-response :
      (r : OperationResult Value) (v : Value)
      → IsConsistent js r
      → Told (record { success = r.success; result = v; error = r.error })
  Told-response _ v (success_result _) = told_success v
  Told-response _ v (error_result e) = told_failure v e

  execute_leased-IsConsistent :
      (op : ModbusOp) (l : Leased io) → IsConsistent js (execute_leased js io op l).1.1
  unfolding execute_leased
  execute_leased-IsConsistent op (p, s, err e) = error_result _
  execute_leased-IsConsistent op (p, s, ok c) =
      (dispatch_op_static-Bounded js io (no_meter io) c p.unit_id op s).0

  pub run_op-Told :
      (o : Option ModbusOp) (t : Task) (p : ModbusConnectionPool io.Client) (s : io.State)
      → Told (run_op fl js io o t p s).2
  unfolding run_op answer execute_operation
  run_op-Told none t p s = told_failure _ _
  run_op-Told (some op) t p s =
      Told-response _ _ (execute_leased-IsConsistent op (acquire_connection io p s))

-- A request on a device, for the queue that it finds.
module _ (fl : Float) (js : Json fl.F64) (io : Io) (device : Device) (operation : Operation)
    (params : js.Value) (q : OperationQueue (Unit {0})) where
  open js use {Value}

  abbrev pub Cause : Type 0
  Cause = operation_to_modbus_op fl js device operation params ≡ panicked

  abbrev Good : Outcome fl js io → Type 0
  Good o = let (w, s, events, a) = finished fl js io o in Served Cause q w.operation_queue a

  abbrev Held : Worker io → Type 0
  Held w = w.operation_queue ≡ record q { in_flight = q.in_flight + 1 }

  given :
      (w : Worker io) (r : OperationResult Value)
      → w.operation_queue ≡ q
      → Told r
      → Served Cause q w.operation_queue (some r)
  given w r e t = subst (λ x. Served Cause q x (some r)) (sym e) (answered r t)

  spawn_unless-Good :
      (missing : List String) (t : Task) (p : ModbusConnectionPool io.Client) (w : Worker io)
      (s : io.State) (events : List DeviceEvent)
      → Held w
      → Good (spawn_unless fl js io missing t p w s events)
  unfolding spawn_unless finished run_task
  spawn_unless-Good [] t p w s events h =
      let after = record w { connection_pool = some (run_task fl js io t p s).0 } in
      given (complete_operation after) _ (complete_operation-restores q after h)
        (run_op-Told fl js io t.modbus_op t p s)
  spawn_unless-Good (f ∷ fs) t p w s events h =
      given (complete_operation w) _ (complete_operation-restores q w h) (told_failure _ _)

  translated-Good :
      (o : Attempt ModbusOp) (p : ModbusConnectionPool io.Client) (w : Worker io) (s : io.State)
      (events : List DeviceEvent)
      → operation_to_modbus_op fl js device operation params ≡ o
      → Held w
      → Good (translated fl js io operation params o p w s events)
  unfolding translated spawn finished
  translated-Good (done op) p w s events e h = spawn_unless-Good _ _ p w s events h
  translated-Good nothing p w s events e h = spawn_unless-Good _ _ p w s events h
  translated-Good panicked p w s events e h =
      subst (λ x. Served {Value = Value} Cause q x none) (sym h) (lost e)

  with_pool-Good :
      (o : Option (ModbusConnectionPool io.Client)) (w : Worker io) (s : io.State)
      (events : List DeviceEvent)
      → device ≡ w.device
      → Held w
      → Good (with_pool fl js io operation params o w s events)
  unfolding with_pool finished
  with_pool-Good none w s events d h =
      given (complete_operation w) _ (complete_operation-restores q w h) (told_failure _ _)
  with_pool-Good (some p) w s events d h =
      translated-Good _ p w s events (ap (λ v. operation_to_modbus_op fl js v operation params) d) h

  limited-Good :
      (w : Worker io) (b : Bool) (s : io.State) (events : List DeviceEvent)
      → device ≡ w.device
      → w.operation_queue ≡ record q { in_flight = if b then q.in_flight + 1 else q.in_flight }
      → Good (limited fl js io operation params (w, b) s events)
  unfolding limited finished
  limited-Good w true s events d h = with_pool-Good w.connection_pool w s events d h
  limited-Good w false s events d h = given w _ h (told_failure _ _)

  acquired-Good :
      (w : Worker io) (s : io.State) (events : List DeviceEvent)
      → device ≡ w.device
      → w.operation_queue ≡ q
      → Good (limited fl js io operation params (try_acquire_operation_atomic w) s events)
  acquired-Good w s events d h =
      let (_, e, _) = try_acquire-both w in
      let b = can_start w.operation_queue in
      subst (λ r. Good (limited fl js io operation params r s events)) (sym e)
        (limited-Good _ b s events d (
          ap
            (λ (x : OperationQueue (Unit {0})). record x {
              in_flight = if b then x.in_flight + 1 else x.in_flight;
            })
            h))

module _ (fl : Float) (js : Json fl.F64) (io : Io) where
  open js use {Value}

  with_connection-Good :
      (operation : Operation) (params : Value) (c : Connected io) (device : Device)
      (q : OperationQueue (Unit {0}))
      → device ≡ c.0.device
      → c.0.operation_queue ≡ q
      → Good fl js io device operation params q (with_connection fl js io operation params c)
  unfolding with_connection finished
  with_connection-Good o params (w, s, events, false) device q d h =
      given fl js io device o params q w _ h (told_failure _ _)
  with_connection-Good get_status params (w, s, events, true) device q d h =
      given fl js io device get_status params q w _ h (told_success _)
  with_connection-Good read_signal_group params (w, s, events, true) device q d h =
      acquired-Good fl js io device read_signal_group params q w s events d h
  with_connection-Good write_signal_group params (w, s, events, true) device q d h =
      acquired-Good fl js io device write_signal_group params q w s events d h

  Ensured-queue :
      (w : Worker io) (c : Connected io) → Ensured io w c → c.0.operation_queue ≡ w.operation_queue
  Ensured-queue w c (online p h e t) = ap (λ v. v.operation_queue) e
  Ensured-queue w c (offline h e t) = ap (λ v. v.operation_queue) e

  pub Ensured-device : (w : Worker io) (c : Connected io) → Ensured io w c → w.device ≡ c.0.device
  Ensured-device w c (online p h e t) = sym (ap (λ v. v.device) e)
  Ensured-device w c (offline h e t) = sym (ap (λ v. v.device) e)

  -- Every request gets exactly one answer, a success without an error or a failure with one, and
  -- leaves the queue of operations as it found it, on every path: a refused or failed request gives
  -- its unit of capacity back. The one exception is a panic of the request's translation, which
  -- answers nothing and loses a unit.
  pub request-Served :
      (operation : Operation) (params : Value) (w : Worker io) (s : io.State)
      → let (w', s', events, a) = request fl js io operation params w s in
        Served
          (Cause fl js io w.device operation params w.operation_queue)
          w.operation_queue
          w'.operation_queue
          a
  unfolding request handle_device_control
  request-Served operation params w s =
      let c = ensure_connected-Ensured io w s in
      with_connection-Good operation params (ensure_connected io w s) w.device w.operation_queue
        (Ensured-device w _ c) (Ensured-queue w _ c)
