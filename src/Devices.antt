-- ===== src/Devices.antt =====
-- The register of devices: what the device manager (workers/manager.rs) and the configuration
-- updater (workers/config_updater.rs) do to the states of the devices.
pub mod Updates
mod Tests
use roboplc_middle.Prelude.{
  ℕ, Bool, false, not, String, List, [], ◌∷◌, Option, none, some, if◌then◌else◌, ◌||◌, map,
}
use roboplc_middle.Prelude.Maps.{string_key, find, insert, remove}
use roboplc_middle.Config.{Config, Device}
use roboplc_middle.Shared.{DeviceStatus}

abbrev pub DeviceStates : Type 0
DeviceStates = List (String × DeviceStatus)

-- The status of a new device at an instant.
abbrev pub new_status : ℕ → DeviceStatus
new_status instant = record {
  connected = false;
  last_communication = instant;
  error_count = 0;
  reconnect_count = 0;
}

-- The loop of `register_devices` over the ids.
unfoldable pub register_loop : ℕ → List String → DeviceStates → DeviceStates
register_loop instant [] states = states
register_loop instant (id ∷ ids) states =
    register_loop instant ids (insert id (new_status instant) states)

abbrev pub ids_of : Config → List String
ids_of config = map (λ d. d.id) config.devices

-- The register's worker map, which nothing reads, is left out.
unfoldable pub register_devices : Config → ℕ → DeviceStates → DeviceStates
unfolding register_loop
register_devices config instant states = register_loop instant (ids_of config) states

-- `contains` of a hash set.
unfoldable pub contains : String → List String → Bool
contains k [] = false
contains k (x ∷ xs) = string_key.beq x k || contains k xs

-- The hash set of some ids; the order of its walk is a choice of the model.
unfoldable pub collect : List String → List String
unfolding contains
collect [] = []
collect (id ∷ ids) = let others = collect ids in if contains id ids then others else id ∷ others

unfoldable pub difference : List String → List String → List String
unfolding contains
difference [] other = []
difference (id ∷ ids) other =
    let rest = difference ids other in if contains id other then rest else id ∷ rest

unfoldable pub intersection : List String → List String → List String
unfolding contains
intersection [] other = []
intersection (id ∷ ids) other =
    let rest = intersection ids other in if contains id other then id ∷ rest else rest

-- The loop over `removed`.
unfoldable pub remove_all : List String → DeviceStates → DeviceStates
remove_all [] states = states
remove_all (id ∷ ids) states = remove_all ids (remove id states)

pub record ConfigUpdateSummary : Type 0 where
  pub added : List String
  pub removed : List String
  pub unchanged : List String

-- The configuration, the states, and the summary; none if the text is no configuration, which is
-- for serde_json to say.
unfoldable pub apply_config_update :
    Option Config → ℕ → Config → DeviceStates → Config × DeviceStates × Option ConfigUpdateSummary
unfolding collect difference intersection remove_all register_loop
apply_config_update none instant config states = (config, states, none)
apply_config_update (some new_config) instant config states =
    let old_device_ids = collect (ids_of config) in
    let new_device_ids = collect (ids_of new_config) in
    let added = difference new_device_ids old_device_ids in
    let removed = difference old_device_ids new_device_ids in
    let unchanged = intersection old_device_ids new_device_ids in
    (
      new_config,
      register_loop instant added (remove_all removed states),
      some (record { added = added; removed = removed; unchanged = unchanged }),
    )
