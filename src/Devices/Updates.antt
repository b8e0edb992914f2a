-- ===== src/Devices/Updates.antt =====
-- Updates of the configuration and the states of the devices (workers/config_updater.rs and
-- workers/manager.rs).
use roboplc_middle.Prelude.{
  ℕ, ◌≡◌, refl, ap, Bool, true, false, not, ◌&&◌, String, List, [], ◌∷◌, Option, none, some, arith,
  if◌then◌else◌, Bool-cases, inl, inr,
}
use roboplc_middle.Prelude.Maps.{string_key, find, insert, remove, find-insert, find-remove}
use roboplc_middle.Config.{Config}
use roboplc_middle.Shared.{DeviceStatus}
use roboplc_middle.Devices.{
  DeviceStates, new_status, register_loop, ids_of, register_devices, contains, collect, difference,
  intersection, remove_all, ConfigUpdateSummary, apply_config_update,
}

find-register_loop :
    (j : String) (instant : ℕ) (ids : List String) (states : DeviceStates)
    → find j (register_loop instant ids states)
      ≡ (if contains j ids then some (new_status instant) else find j states)
unfolding register_loop contains
find-register_loop j instant [] states = refl
find-register_loop j instant (id ∷ ids) states = ground (
  arith,
  find-register_loop j instant ids (insert id (new_status instant) states),
  find-insert id j (new_status instant) states,
)

find-remove_all :
    (j : String) (ids : List String) (states : DeviceStates)
    → find j (remove_all ids states) ≡ (if contains j ids then none else find j states)
unfolding remove_all contains
find-remove_all j [] states = refl
find-remove_all j (id ∷ ids) states =
    ground (arith, find-remove_all j ids (remove id states), find-remove id j states)

same_contains :
    (i j : String) (ids : List String) → string_key.beq i j ≡ true → contains i ids ≡ contains j ids
same_contains i j ids e = ap (λ (k : String). contains k ids) ((string_key.beq_iff i j).0 e)

contains-collect : (j : String) (ids : List String) → contains j (collect ids) ≡ contains j ids
unfolding collect contains
contains-collect j [] = refl
contains-collect j (id ∷ ids) = elim (Bool-cases (string_key.beq id j)) [
  | inl e ↦ ground (arith, contains-collect j ids, same_contains id j ids e)
  | inr e ↦ ground (arith, contains-collect j ids)
]

contains-difference :
    (j : String) (ids other : List String)
    → contains j (difference ids other) ≡ (contains j ids && not (contains j other))
unfolding difference contains
contains-difference j [] other = refl
contains-difference j (id ∷ ids) other = elim (Bool-cases (string_key.beq id j)) [
  | inl e ↦ ground (arith, contains-difference j ids other, same_contains id j other e)
  | inr e ↦ ground (arith, contains-difference j ids other)
]

contains-intersection :
    (j : String) (ids other : List String)
    → contains j (intersection ids other) ≡ (contains j ids && contains j other)
unfolding intersection contains
contains-intersection j [] other = refl
contains-intersection j (id ∷ ids) other = elim (Bool-cases (string_key.beq id j)) [
  | inl e ↦ ground (arith, contains-intersection j ids other, same_contains id j other e)
  | inr e ↦ ground (arith, contains-intersection j ids other)
]

-- What a summary says of an id that was, or is, a device's.
abbrev pub Summarised : Bool → Bool → String → Option ConfigUpdateSummary → Type 0
Summarised was now j none = ⊥
Summarised was now j (some summary) =
    (contains j summary.added ≡ (now && not was))
    × (contains j summary.removed ≡ (was && not now))
    × (contains j summary.unchanged ≡ (was && now))

-- An update that parses: an id that comes into the configuration gets the status of a new device,
-- one that leaves it loses its status, and all others keep theirs. The summary lists exactly the ids
-- that came, left and stayed.
pub apply-updates :
    (new_config config : Config) (instant : ℕ) (states : DeviceStates) (j : String)
    → let (config', states', summary) =
        apply_config_update (some new_config) instant config states in
      let was = contains j (ids_of config) in
      let now = contains j (ids_of new_config) in
      (config' ≡ new_config)
      × (find j states' ≡ (
          if now && not was
          then some (new_status instant)
          else if was && not now
          then none
          else find j states))
      × Summarised was now j summary
unfolding apply_config_update
apply-updates new_config config instant states j =
    let old = collect (ids_of config) in
    let new = collect (ids_of new_config) in
    let was = contains-collect j (ids_of config) in
    let now = contains-collect j (ids_of new_config) in
    let added = contains-difference j new old in
    let removed = contains-difference j old new in
    let unchanged = contains-intersection j old new in
    (
      refl,
      ground (
        arith,
        was,
        now,
        added,
        removed,
        find-register_loop j instant (difference new old) (remove_all (difference old new) states),
        find-remove_all j (difference old new) states,
      ),
      (
        ground (arith, was, now, added),
        ground (arith, was, now, removed),
        ground (arith, was, now, unchanged),
      ),
    )

abbrev known : Option DeviceStatus → Bool
known none = false
known (some status) = true

-- The devices that have a status are those of the configuration.
abbrev pub InSync : Config → DeviceStates → Type 0
InSync config states = (j : String) → known (find j states) ≡ contains j (ids_of config)

find-empty : (j : String) → find {V = DeviceStatus} j [] ≡ none
unfolding find
find-empty j = refl

register-InSync :
    (config : Config) (instant : ℕ) → InSync config (register_devices config instant [])
unfolding register_devices
register-InSync config instant j =
    ground (arith, find-register_loop j instant (ids_of config) [], find-empty j)

apply-InSync :
    (update : Option Config) (instant : ℕ) (config : Config) (states : DeviceStates)
    → InSync config states
    → let (config', states', summary) = apply_config_update update instant config states in
      InSync config' states'
unfolding apply_config_update
apply-InSync none instant config states h j = h j
apply-InSync (some new_config) instant config states h j =
    let (e, found, summary) = apply-updates new_config config instant states j in
    ground (arith, h j, found)

-- Updates at instants, of which some may not parse.
unfoldable pub updates : List (Option Config × ℕ) → Config × DeviceStates → Config × DeviceStates
unfolding apply_config_update
updates [] r = r
updates ((update, instant) ∷ more) (config, states) =
    let (config', states', summary) = apply_config_update update instant config states in
    updates more (config', states')

updates_from :
    (us : List (Option Config × ℕ)) (r : Config × DeviceStates)
    → InSync r.0 r.1
    → InSync (updates us r).0 (updates us r).1
unfolding updates
updates_from [] r h = h
updates_from ((update, instant) ∷ more) (config, states) h =
    updates_from more _ (apply-InSync update instant config states h)

-- From the registration of the devices on, after any updates, those that do not parse included, a
-- device has a status exactly if it is in the current configuration.
pub updates-InSync :
    (us : List (Option Config × ℕ)) (config : Config) (instant : ℕ)
    → let (config', states') = updates us (config, register_devices config instant []) in
      InSync config' states'
updates-InSync us config instant = updates_from us _ (register-InSync config instant)
