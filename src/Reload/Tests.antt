-- ===== src/Reload/Tests.antt =====
-- The reload at concrete inputs.
use roboplc_middle.Prelude.{ℕ, zero, suc, ◌≡◌, ◌↔◌, refl, true, List, []}
use roboplc_middle.Prelude.Text.{codes}
use roboplc_middle.Modbus.Io.{Outcome, ok}
use roboplc_middle.Hub.Sample.{Desk, sample_hub}
use roboplc_middle.Reload.{Value, null, bool, number, object, done, member, collect_diff_paths}
use roboplc_middle.Reload.Equal.{Same}
use roboplc_middle.Reload.Paths.{collect_diff_paths-Same}
use roboplc_middle.Reload.Loader.{ConfigLoader, handle_event}
use roboplc_middle.Reload.Loader.Events.{Reacted, handle_event-settles}

-- A configuration of one port and one level.
abbrev server : Value → Value → Value
server port level = object (
    member "logging" (object (member "level" level done))
      (member "server" (object (member "rpc_port" port (member "tls" null done))) done))

collect_diff_paths-Same_example :
    (collect_diff_paths "" (server (number "8080") null) (server (number "9090") null) ≡ [])
    ↔ Same (server (number "8080") null) (server (number "9090") null)
collect_diff_paths-Same_example =
    collect_diff_paths-Same "" (server (number "8080") null) (server (number "9090") null)

-- A configuration as the digits of its port.
abbrev of_port : ℕ → Outcome Value
of_port zero = ok (server (number "8080") null)
of_port (suc n) = ok (server (number "9090") (bool true))

abbrev to_text : ℕ → Outcome (List ℕ)
to_text n = ok (codes "{}")

abbrev loader : ConfigLoader ℕ
loader = record { current_config = 0 }

abbrev desk : Desk
desk = (1000000, 1, [])

handle_event-settles_example :
    Reacted of_port to_text sample_hub 1
      (server (number "9090") (bool true))
      (codes "{}")
      loader
      desk
      (server (number "8080") null)
      (handle_event of_port to_text sample_hub (ok 1) loader desk)
    × (handle_event of_port to_text sample_hub
          (ok 1)
          (handle_event of_port to_text sample_hub (ok 1) loader desk).0
          (handle_event of_port to_text sample_hub (ok 1) loader desk).1
        ≡ handle_event of_port to_text sample_hub (ok 1) loader desk)
handle_event-settles_example =
    handle_event-settles of_port to_text sample_hub 1 (server (number "8080") null)
      (server (number "9090") (bool true)) (codes "{}") loader desk refl refl refl
