-- ===== src/Modbus/Worker.antt =====
-- The Modbus worker of a device (workers/modbus/worker.rs): its loop over the hub's messages. The
-- parser of JSON text is a parameter.
pub mod Answers
pub mod Concurrent
mod Tests
use roboplc_middle.Prelude.{ℕ, Bool, String, List, [], ◌∷◌, ◌++◌, Option, none, some, if◌then◌else◌}
use roboplc_middle.Prelude.Float.{Float}
use roboplc_middle.Prelude.Json.{Json}
use roboplc_middle.Prelude.Maps.{string_key}
use roboplc_middle.Config.{Config, Device}
use roboplc_middle.Messages.{Message, DeviceResponseData, device_control, config_update}
use roboplc_middle.Modbus.Io.{Io}
use roboplc_middle.Modbus.Client.{OperationResult}
use roboplc_middle.Modbus.State.{DeviceEvent, Worker, new as new_state, update_device_config}
use roboplc_middle.Modbus.Handler.{Operation}
use roboplc_middle.Modbus.Handler.Control.{request}

-- Where an answer goes: to the channel of the request, or as a message to the hub.
pub data Destination : Type 0 where
  to_channel : ℕ → Destination
  to_hub : String → ℕ → Destination

-- `send_response` for a device, a correlation id and `respond_to`.
unfoldable pub destination : String → ℕ → Option ℕ → Destination
destination device_id correlation_id (some channel) = to_channel channel
destination device_id correlation_id none = to_hub device_id correlation_id

-- The first device of that id.
unfoldable pub find_device : String → List Device → Option Device
find_device id [] = none
find_device id (d ∷ ds) = if string_key.beq d.id id then some d else find_device id ds

module _ (fl : Float) (js : Json fl.F64) (io : Io) where
  open js use {Value}

  pub record ModbusWorker : Type 0 where
    pub handler : Worker io
    pub device_id : String

  unfoldable pub new : Device → ModbusWorker
  new device = record { handler = new_state device; device_id = device.id }

  unfoldable pub find_device_config : Config → ModbusWorker → Option Device
  unfolding find_device
  find_device_config new_config w = find_device w.device_id new_config.devices

  -- The worker, the network, the events and the answer; none if the handler panics, which ends the
  -- worker.
  abbrev pub Stepped : Type 0
  Stepped =
      Option
        (ModbusWorker × io.State × List DeviceEvent × List (Destination × OperationResult Value))

  abbrev pub answered :
      ModbusWorker
      → Destination
      → Worker io × io.State × List DeviceEvent × Option (OperationResult Value)
      → Stepped
  answered w to (h, s, events, none) = none
  answered w to (h, s, events, some r) = some (record w { handler = h }, s, events, (to, r) ∷ [])

  abbrev pub configured : Option Device → ModbusWorker → ModbusWorker
  unfolding update_device_config
  configured none w = w
  configured (some d) w = record w { handler = update_device_config w.handler d }

  abbrev pub reconfigured : Option Config → ModbusWorker → ModbusWorker
  unfolding configured find_device_config
  reconfigured none w = w
  reconfigured (some c) w = configured (find_device_config c w) w

  -- One message in the loop of `run`, while the worker is online.
  unfoldable pub step : (List ℕ → Option Config) → Message Value → ModbusWorker → io.State → Stepped
  unfolding destination reconfigured request
  step from_str (device_control device_id operation params correlation_id respond_to) w s =
      let handled =
        answered w (destination device_id correlation_id respond_to)
          (request fl js io operation params w.handler s) in
      if string_key.beq device_id w.handler.device.id then handled else some (w, s, [], [])
  step from_str (config_update config) w s = some (reconfigured (from_str config) w, s, [], [])
  step from_str _ w s = some (w, s, [], [])

  abbrev pub and_then : Stepped → (ModbusWorker → io.State → Stepped) → Stepped
  and_then none next = none
  and_then (some (w, s, events, answers)) next = elim (next w s) [
    | none ↦ none
    | some (w', s', later, more) ↦ some (w', s', events ++ later, answers ++ more)
  ]

  -- The loop of `run`, over messages that come one at a time: the task of each ends before the next
  -- is taken. Concurrent has the messages that come while tasks run.
  unfoldable pub run :
      (List ℕ → Option Config) → List (Message Value) → ModbusWorker → io.State → Stepped
  unfolding step
  run from_str [] w s = some (w, s, [], [])
  run from_str (m ∷ ms) w s = and_then (step from_str m w s) (run from_str ms)
