-- ===== src/Reload/Loader/Events.antt =====
-- Which events of the file lead to an update (workers/config_loader.rs).
use roboplc_middle.Prelude.{ℕ, ◌≡◌, refl, ap, ◌∙◌, String, List, [], ◌∷◌}
use roboplc_middle.Modbus.Io.{Outcome, ok}
use roboplc_middle.Messages.{config_update}
use roboplc_middle.Hub.{Hub, default_hub_send_timeout, send_to_hub_with_protection}
use roboplc_middle.Reload.{Value, collect_diff_paths}
use roboplc_middle.Reload.Equal.{Same, same_value}
use roboplc_middle.Reload.Paths.{collect_diff_paths-Same}
use roboplc_middle.Reload.Loader.{ConfigLoader, changed, reported, reload_config, handle_event}

module _ {Config : Type 0} (to_value : Config → Outcome Value)
    (to_string : Config → Outcome (List ℕ)) {V : Type 0} (hub : Hub V) where
  abbrev Handled : Type 0
  Handled = ConfigLoader Config × hub.State

  -- What an event of a file leads to: nothing if its configuration has the value of the current one;
  -- if not, the configuration becomes the current one and its text is sent once.
  pub data Reacted (new : Config) (w : Value) (text : List ℕ) (l : ConfigLoader Config)
      (s : hub.State) (old : Value) : Handled → Type 0 where
    unchanged : Same old w → Reacted new w text l s old (l, s)
    updated :
        (l' : ConfigLoader Config) (s' : hub.State)
        → ¬ Same old w
        → l'.current_config ≡ new
        → s' ≡ (send_to_hub_with_protection hub (config_update text) default_hub_send_timeout s).0
        → Reacted new w text l s old (l', s')

  event-changed :
      (new : Config) (old w : Value) (l : ConfigLoader Config) (s : hub.State)
      → to_value l.current_config ≡ ok old
      → to_value new ≡ ok w
      → handle_event to_value to_string hub (ok new) l s
        ≡ reported to_value to_string hub
            (changed to_value to_string (collect_diff_paths "" old w) new l)
            s
  unfolding handle_event reload_config
  event-changed new old w l s e f = rw (e, f) refl

  event-Same :
      (new : Config) (old w : Value) (l : ConfigLoader Config) (s : hub.State)
      → to_value l.current_config ≡ ok old
      → to_value new ≡ ok w
      → Same old w
      → handle_event to_value to_string hub (ok new) l s ≡ (l, s)
  event-Same new old w l s e f same =
      event-changed new old w l s e f
      ∙ ap (λ ps. reported to_value to_string hub (changed to_value to_string ps new l) s)
          ((collect_diff_paths-Same "" old w).1 same)

  differs-Reacted :
      (new : Config) (old w : Value) (text : List ℕ) (l : ConfigLoader Config) (s : hub.State)
      (paths : List String)
      → to_string new ≡ ok text
      → ((paths ≡ []) → Same old w)
      → (Same old w → paths ≡ [])
      → Reacted new w text l s old
          (reported to_value to_string hub (changed to_value to_string paths new l) s)
  differs-Reacted new old w text l s [] e f g = unchanged (f refl)
  differs-Reacted new old w text l s (p ∷ ps) e f g =
      rw e (updated _ _ (λ same. let no_paths = g same in cc) refl refl)

  event-Reacted :
      (new : Config) (old w : Value) (text : List ℕ) (l : ConfigLoader Config) (s : hub.State)
      → to_value l.current_config ≡ ok old
      → to_value new ≡ ok w
      → to_string new ≡ ok text
      → Reacted new w text l s old (handle_event to_value to_string hub (ok new) l s)
  event-Reacted new old w text l s e f g =
      let paths = collect_diff_paths-Same "" old w in
      rw (event-changed new old w l s e f)
        (differs-Reacted new old w text l s (collect_diff_paths "" old w) g paths.0 paths.1)

  Reacted-again :
      (new : Config) (old w : Value) (text : List ℕ) (l : ConfigLoader Config) (s : hub.State)
      (r : Handled)
      → to_value l.current_config ≡ ok old
      → to_value new ≡ ok w
      → Reacted new w text l s old r
      → handle_event to_value to_string hub (ok new) r.0 r.1 ≡ r
  Reacted-again new old w text l s _ e f (unchanged same) = event-Same new old w l s e f same
  Reacted-again new old w text l s _ e f (updated l' s' differ current sent) =
      event-Same new w w l' s' (ap to_value current ∙ f) f (same_value w)

  -- An event of a file whose configuration serde_json can write: if its value is that of the current
  -- configuration, nothing happens; if not, it becomes the current configuration and its text is
  -- sent once. One more event of the same file does nothing, also if that send failed.
  pub handle_event-settles :
      (new : Config) (old w : Value) (text : List ℕ) (l : ConfigLoader Config) (s : hub.State)
      → to_value l.current_config ≡ ok old
      → to_value new ≡ ok w
      → to_string new ≡ ok text
      → let r = handle_event to_value to_string hub (ok new) l s in
        Reacted new w text l s old r × (handle_event to_value to_string hub (ok new) r.0 r.1 ≡ r)
  handle_event-settles new old w text l s e f g =
      let reacted = event-Reacted new old w text l s e f g in
      (reacted, Reacted-again new old w text l s _ e f reacted)
