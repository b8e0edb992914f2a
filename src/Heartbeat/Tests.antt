-- ===== src/Heartbeat/Tests.antt =====
-- The heartbeats at concrete inputs.
use roboplc_middle.Prelude.{
  ◌%◌, ◌≡◌, arith, true, false, String, List, [], ◌∷◌, some, none, get_elem?,
}
use roboplc_middle.Prelude.Sample.{Tree, sample_json}
use roboplc_middle.Config.{Device}
use roboplc_middle.Modbus.Sample.{sample_device}
use roboplc_middle.Hub.{answered}
use roboplc_middle.Hub.Sample.{Desk, sample_hub}
use roboplc_middle.Shared.{DeviceStatus}
use roboplc_middle.Heartbeat.{HeartbeatWorker, new, ping_device, Round, round}
use roboplc_middle.Heartbeat.Rounds.{Checks, round-Checks, sweep, sweep-new}

abbrev device : String → Device
device id = record sample_device { id = id }

abbrev devices : List Device
devices = device "a" ∷ device "b" ∷ []

abbrev states : List (String × DeviceStatus)
states =
    (
      "b",
      record { connected = false; last_communication = 0; error_count = 0; reconnect_count = 0 },
    )
    ∷ []

abbrev desk : Desk
desk = (1000000, 1, answered (true, Tree.null, none) ∷ [])

abbrev worker : HeartbeatWorker
worker = record {
  devices = devices;
  current_device_index = 3;
  heartbeat_interval_sec = 30;
  heartbeat_timeout_sec = 1;
}

round-Checks_example :
    (d : Device) × (r : Round sample_json sample_hub) × (get_elem? devices (3 % 2) ≡ some d)
    × (round sample_json sample_hub worker states desk ≡ some r)
    × Checks sample_json sample_hub worker d states
        (ping_device sample_json sample_hub worker d.id desk)
        r
round-Checks_example =
    round-Checks sample_json sample_hub worker states desk (omega arith) (omega arith)

sweep-new_example :
    (w' : HeartbeatWorker) × (sweep sample_json sample_hub 2 (new devices) states desk
      ≡ some (some "a" ∷ some "b" ∷ [], w'))
    × (w'.devices ≡ devices)
    × (w'.current_device_index % 2 ≡ 0)
sweep-new_example = sweep-new sample_json sample_hub devices states desk (omega arith) (omega arith)
