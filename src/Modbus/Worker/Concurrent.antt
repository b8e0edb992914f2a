-- ===== src/Modbus/Worker/Concurrent.antt =====
-- A Modbus worker with several requests of its device in flight (workers/modbus/worker.rs and
-- workers/modbus/handler.rs): the loop of `run` takes a message while the tasks of earlier requests
-- are still running, and the tasks end in any order. The pool and the network that a task or a
-- message finds, which others change, are parts of the events. Each `complete` has the counter for
-- itself; Modbus/Queue/Threads has those accesses interleaved.
pub mod Served
use roboplc_middle.Prelude.{
  ℕ, zero, suc, Bool, String, List, [], ◌∷◌, Option, none, some, if◌then◌else◌,
}
use roboplc_middle.Prelude.Float.{Float}
use roboplc_middle.Prelude.Json.{Json}
use roboplc_middle.Prelude.Maps.{string_key}
use roboplc_middle.Config.{Config}
use roboplc_middle.Messages.{Message, device_control, config_update}
use roboplc_middle.Modbus.Io.{Io}
use roboplc_middle.Modbus.Client.{OperationResult}
use roboplc_middle.Modbus.Pool.{ModbusConnectionPool}
use roboplc_middle.Modbus.State.{complete_operation}
use roboplc_middle.Modbus.Handler.Reply.{Task, responded, spawned, crashed}
use roboplc_middle.Modbus.Handler.Control.{Outcome, handle_device_control, run_task}
use roboplc_middle.Modbus.Worker.{Destination, destination, ModbusWorker, reconfigured}

module _ (fl : Float) (js : Json fl.F64) (io : Io) where
  open js use {Value}

  -- The worker, the tasks that run, with the places of their answers, and the answers given; the
  -- newest first.
  pub record Busy : Type 0 where
    pub worker : ModbusWorker fl js io
    pub running : List (Destination × Task)
    pub answers : List (Destination × OperationResult Value)

  -- The loop takes a message; or the running task at a place ends, with the pool and the network
  -- that its operation finds.
  pub data Event : Type 0 where
    arrives : Message Value → io.State → Event
    ends : ℕ → ModbusConnectionPool io.Client → io.State → Event

  unfoldable pub idle : ModbusWorker fl js io → Busy
  idle w = record { worker = w; running = []; answers = [] }

  -- What the handler does with a request.
  unfoldable pub handled : Busy → Destination → Outcome fl js io → Option Busy
  handled b to (w, s, events, responded r) = some (record {
    worker = record b.worker { handler = w };
    running = b.running;
    answers = (to, r) ∷ b.answers;
  })
  handled b to (w, s, events, spawned t pool) = some (record {
    worker = record b.worker { handler = w };
    running = (to, t) ∷ b.running;
    answers = b.answers;
  })
  handled b to (w, s, events, crashed) = none

  -- The task at a place, and the others.
  unfoldable pub pick :
      ℕ → List (Destination × Task) → Option ((Destination × Task) × List (Destination × Task))
  pick i [] = none
  pick zero (x ∷ xs) = some (x, xs)
  pick (suc i) (x ∷ xs) = elim (pick i xs) [ none ↦ none | some (y, ys) ↦ some (y, x ∷ ys) ]

  -- The task sends its response, and its guard gives the unit of capacity back.
  unfoldable pub ended :
      ModbusConnectionPool io.Client
      → io.State
      → (Destination × Task) × List (Destination × Task)
      → Busy
      → Busy
  unfolding complete_operation run_task
  ended pool s ((to, t), rest) b = record {
    worker = record b.worker { handler = complete_operation b.worker.handler };
    running = rest;
    answers = (to, (run_task fl js io t pool s).2) ∷ b.answers;
  }

  unfoldable pub react : (List ℕ → Option Config) → Event → Busy → Option Busy
  unfolding handled pick ended destination reconfigured handle_device_control
  react from_str (arrives (device_control device_id operation params correlation_id respond_to) s)
        b =
      let handled_here =
        handled b (destination device_id correlation_id respond_to)
          (handle_device_control fl js io operation params b.worker.handler s) in
      if string_key.beq device_id b.worker.handler.device.id then handled_here else some b
  react from_str (arrives (config_update config) s) b =
      some (record b { worker = reconfigured fl js io (from_str config) b.worker })
  react from_str (arrives _ s) b = some b
  react from_str (ends i pool s) b = elim (pick i b.running) [
    | none ↦ some b
    | some picked ↦ some (ended pool s picked b)
  ]

  -- After some events, the newest first; none if the handler panics.
  unfoldable pub after : (List ℕ → Option Config) → List Event → Busy → Option Busy
  unfolding react
  after from_str [] b = some b
  after from_str (e ∷ earlier) b = elim (after from_str earlier b) [
    | none ↦ none
    | some b' ↦ react from_str e b'
  ]
