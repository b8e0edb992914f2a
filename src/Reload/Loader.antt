-- ===== src/Reload/Loader.antt =====
-- What the loader does with an event of the file (workers/config_loader.rs). The configuration is
-- the one that `Config::from_file` gives, with serde_json's `to_value` and `to_string` of it.
pub mod Events
use roboplc_middle.Prelude.{ℕ, String, List, [], ◌∷◌, Option, none, some}
use roboplc_middle.Modbus.Io.{Outcome, ok, err}
use roboplc_middle.Messages.{config_update}
use roboplc_middle.Hub.{Hub, default_hub_send_timeout, send_to_hub_with_protection}
use roboplc_middle.Reload.{Value, collect_diff_paths}

-- The parts of the configuration that nothing here reads are behind the parameter.
pub record ConfigLoader (Config : Type 0) : Type 0 where
  pub current_config : Config

-- The text of the new configuration and the paths at which it differs.
abbrev pub Change : Type 0
Change = List ℕ × List String

module _ {Config : Type 0} (to_value : Config → Outcome Value)
    (to_string : Config → Outcome (List ℕ)) where
  abbrev pub Reloaded : Type 0
  Reloaded = ConfigLoader Config × Outcome (Option Change)

  abbrev pub written : Outcome (List ℕ) → List String → Config → ConfigLoader Config → Reloaded
  written (err e) paths new_config l = (l, err e)
  written (ok text) paths new_config l =
      (record l { current_config = new_config }, ok (some (text, paths)))

  abbrev pub changed : List String → Config → ConfigLoader Config → Reloaded
  changed [] new_config l = (l, ok none)
  changed (p ∷ ps) new_config l = written (to_string new_config) (p ∷ ps) new_config l

  abbrev pub valued : Outcome Value → Outcome Value → Config → ConfigLoader Config → Reloaded
  unfolding collect_diff_paths
  valued (err e) new_value new_config l = (l, err e)
  valued (ok old) (err e) new_config l = (l, err e)
  valued (ok old) (ok new) new_config l = changed (collect_diff_paths "" old new) new_config l

  -- With what `from_file` gives.
  unfoldable pub reload_config : Outcome Config → ConfigLoader Config → Reloaded
  unfolding valued
  reload_config (err e) l = (l, err e)
  reload_config (ok new_config) l =
      valued (to_value l.current_config) (to_value new_config) new_config l

module _ {Config : Type 0} (to_value : Config → Outcome Value)
    (to_string : Config → Outcome (List ℕ)) {V : Type 0} (hub : Hub V) where
  -- A failed send, no change and an error are logged.
  abbrev pub reported : Reloaded to_value to_string → hub.State → ConfigLoader Config × hub.State
  reported (l, ok (some (text, paths))) s =
      (l, (send_to_hub_with_protection hub (config_update text) default_hub_send_timeout s).0)
  reported (l, ok none) s = (l, s)
  reported (l, err e) s = (l, s)

  -- One event in the loop of `run`; the sleeps are left out.
  unfoldable pub handle_event :
      Outcome Config → ConfigLoader Config → hub.State → ConfigLoader Config × hub.State
  unfolding reload_config
  handle_event file l s = reported (reload_config to_value to_string file l) s
