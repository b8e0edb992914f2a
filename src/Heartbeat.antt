-- ===== src/Heartbeat.antt =====
-- The heartbeats (workers/heartbeat_worker.rs): each round asks one device for its status, in turn.
pub mod Rounds
pub mod Events
mod Tests
use roboplc_middle.Prelude.{
  ℕ, suc, ◌+◌, ◌-◌, ◌*◌, ◌/◌, ◌%◌, ◌^◌, min, max, Bool, true, false, ◌&&◌, not, ◌==◌, String, List,
  [], ◌∷◌, ◌++◌, map, Option, none, some, if◌then◌else◌, length, get_elem?,
}
use roboplc_middle.Prelude.Text.{codes}
use roboplc_middle.Prelude.Json.{Json}
use roboplc_middle.Prelude.Maps.{string_key, find, insert}
use roboplc_middle.Config.{Device}
use roboplc_middle.Modbus.Io.{Outcome, ok, err}
use roboplc_middle.Modbus.Handler.{get_status}
use roboplc_middle.Modbus.State.{DeviceEvent, DeviceEventType, connected_event, disconnected_event}
use roboplc_middle.Messages.{Message, device_control, device_heartbeat}
use roboplc_middle.Hub.{
  Hub, Received, answered, timed_out, disconnected, default_hub_send_timeout, take_id,
  send_to_hub_with_protection,
}
use roboplc_middle.Shared.{DeviceStatus, millis}

-- Of the configuration the worker reads the devices.
pub record HeartbeatWorker : Type 0 where
  pub devices : List Device
  pub current_device_index : ℕ  -- usize
  pub heartbeat_interval_sec : ℕ  -- u32
  pub heartbeat_timeout_sec : ℕ  -- u32

-- The least of the intervals, if there is a device.
abbrev pub least : List Device → Option ℕ
least [] = none
least (d ∷ ds) = elim (least ds) [
  | none ↦ some d.heartbeat_interval_sec
  | some n ↦ some (min d.heartbeat_interval_sec n)
]

abbrev pub or_30 : Option ℕ → ℕ
or_30 none = 30
or_30 (some n) = n

unfoldable pub new : List Device → HeartbeatWorker
new devices = record {
  devices = devices;
  current_device_index = 0;
  heartbeat_interval_sec = or_30 (least devices);
  heartbeat_timeout_sec = 1;
}

module _ {Value : Type 0} (hub : Hub Value) where
  abbrev pub Pinged : Type 0
  Pinged = hub.State × Bool × ℕ

  -- What follows the wait for the answer, from the time of the request.
  abbrev pub pong : ℕ → hub.State × Received Value → Pinged
  pong start (s, answered (success, reply, error)) = (s, success, (hub.now s - start) % 2 ^ 64)
  pong start (s, timed_out) = (s, false, 0)
  pong start (s, disconnected) = (s, false, 0)

  abbrev pub ping_sent : ℕ → ℕ → ℕ → hub.State × Outcome (Unit {0}) → Pinged
  ping_sent start id timeout (s, err e) = (s, false, 0)
  ping_sent start id timeout (s, ok _) = pong start (hub.receive id timeout s)

  abbrev pub ping_with_id :
      (List (String × Value) → Value) → String → ℕ → ℕ → hub.State × ℕ → Pinged
  unfolding send_to_hub_with_protection
  ping_with_id object device_id start timeout (s, id) = ping_sent start id timeout (
      send_to_hub_with_protection hub (device_control device_id get_status (object []) id (some id))
        default_hub_send_timeout s)

abbrev pub heartbeat_event : String → Bool → ℕ → DeviceEvent
heartbeat_event device_id connected now = record {
  device_id = device_id;
  event_type = if connected then connected_event else disconnected_event;
  timestamp_ms = millis now;
  details =
      codes "Device "
      ++ (if connected then codes "connected" else codes "disconnected")
      ++ codes " via heartbeat check";
}

-- `!=` of Booleans
abbrev pub differs : Bool → Bool → Bool
differs true b = not b
differs false b = b

-- The states and the events that are pushed, at an instant and a time in microseconds.
unfoldable pub update_device_status :
    String
    → Bool
    → ℕ
    → ℕ
    → List (String × DeviceStatus)
    → List (String × DeviceStatus) × List DeviceEvent
update_device_status device_id connected instant now states = elim (find device_id states) [
  | none ↦ (states, [])
  | some status ↦ (
    insert device_id (record status { connected = connected; last_communication = instant }) states,
    if differs status.connected connected then heartbeat_event device_id connected now ∷ [] else [],
  )
]

module _ {F64 : Type 0} (js : Json F64) (hub : Hub js.Value) where
  unfoldable pub ping_device : HeartbeatWorker → String → hub.State → Pinged hub
  unfolding ping_with_id take_id
  ping_device w device_id s =
      ping_with_id hub js.object device_id (hub.now s) (w.heartbeat_timeout_sec * 1000)
        (take_id hub s)

  -- A failed send is logged.
  unfoldable pub broadcast_heartbeat : String → ℕ → hub.State → hub.State
  unfolding send_to_hub_with_protection
  broadcast_heartbeat device_id latency_us s =
      (send_to_hub_with_protection hub (device_heartbeat device_id (millis (hub.now s)) latency_us)
        default_hub_send_timeout s).0

  -- The worker, the states of the devices, the events pushed, the world, the device that was
  -- checked, and the time in milliseconds that the round then sleeps; none if it panics.
  pub record Round : Type 0 where
    pub worker : HeartbeatWorker
    pub states : List (String × DeviceStatus)
    pub events : List DeviceEvent
    pub world : hub.State
    pub checked : Option String
    pub sleep_ms : ℕ

  abbrev pub checked_with :
      HeartbeatWorker → String → List (String × DeviceStatus) → Pinged hub → Round
  unfolding update_device_status broadcast_heartbeat
  checked_with w device_id states (s, connected, latency_us) =
      let (states', events) =
        update_device_status device_id connected (hub.instant s) (hub.now s) states in
      let count = length w.devices in
      record {
        worker = record w {
          current_device_index = min (w.current_device_index + 1) (2 ^ 64 - 1) % count;
        };
        states = states';
        events = events;
        world = broadcast_heartbeat device_id latency_us s;
        checked = some device_id;
        sleep_ms = max (w.heartbeat_interval_sec / count * 1000) 100 - 100;
      }

  -- `devices[index]` panics out of bounds.
  abbrev pub indexed :
      HeartbeatWorker → Option Device → List (String × DeviceStatus) → hub.State → Option Round
  unfolding checked_with ping_device
  indexed w none states s = none
  indexed w (some d) states s = some (checked_with w d.id states (ping_device w d.id s))

  -- One round of the loop of `run` while the worker is online.
  unfoldable pub round : HeartbeatWorker → List (String × DeviceStatus) → hub.State → Option Round
  unfolding indexed
  round w states s =
      let count = length w.devices in
      let w' = record w { current_device_index = w.current_device_index % count } in
      let busy = indexed w' (get_elem? w.devices w'.current_device_index) states s in
      if count == 0
      then some (record {
        worker = w;
        states = states;
        events = [];
        world = s;
        checked = none;
        sleep_ms = 0;
      })
      else busy
