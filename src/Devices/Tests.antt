-- ===== src/Devices/Tests.antt =====
-- The register of devices at concrete inputs.
use roboplc_middle.Prelude.{◌≡◌, refl, true, not, String, ◌&&◌, [], ◌∷◌, some, none, if◌then◌else◌}
use roboplc_middle.Prelude.Maps.{string_key, find, insert, remove}
use roboplc_middle.Config.{Config, Device}
use roboplc_middle.Modbus.Sample.{sample_device}
use roboplc_middle.Devices.{
  DeviceStates, new_status, register_loop, register_devices, ids_of, contains, collect, difference,
  remove_all, apply_config_update,
}
use roboplc_middle.Devices.Updates.{Summarised, InSync, updates, apply-updates, updates-InSync}

abbrev device : String → Device
device id = record sample_device { id = id }

abbrev before : Config
before = record { devices = device "a" ∷ device "b" ∷ []; streams = [] }

abbrev after : Config
after = record { devices = device "b" ∷ device "c" ∷ []; streams = [] }

abbrev states : DeviceStates
states =
    ("a", new_status 5) ∷ ("b", record (new_status 5) { connected = true; error_count = 2 }) ∷ []

updated :
    (apply_config_update (some after) 9 before states).1
    ≡ ("b", record (new_status 5) { connected = true; error_count = 2 }) ∷ ("c", new_status 9) ∷ []
unfolding apply_config_update collect difference remove_all register_loop contains insert remove
updated = refl

apply-updates_example :
    let (config', states', summary) = apply_config_update (some after) 9 before states in
    let was = contains "b" (ids_of before) in
    let now = contains "b" (ids_of after) in
    (config' ≡ after)
    × (find "b" states' ≡ (
        if now && not was
        then some (new_status 9)
        else if was && not now
        then none
        else find "b" states))
    × Summarised was now "b" summary
apply-updates_example = apply-updates after before 9 states "b"

updates-InSync_example :
    let (config', states') =
      updates ((some after, 9) ∷ (none, 12) ∷ []) (before, register_devices before 5 []) in
    InSync config' states'
updates-InSync_example = updates-InSync ((some after, 9) ∷ (none, 12) ∷ []) before 5
