-- ===== src/Http/Tests.antt =====
-- The HTTP handlers at concrete inputs.
use roboplc_middle.Prelude.{◌≡◌, refl, arith, Bool, true, false, [], ◌∷◌, none}
use roboplc_middle.Prelude.Text.{codes}
use roboplc_middle.Prelude.Sample.{Tree, sample_json}
use roboplc_middle.Modbus.Address.{trim, is_whitespace}
use roboplc_middle.Hub.{answered}
use roboplc_middle.Hub.Sample.{Desk}
use roboplc_middle.Shared.{DeviceStatus}
use roboplc_middle.Sse.Sample.{sample_channels, sample_registry}
use roboplc_middle.Streams.{DataStreamWorker}
use roboplc_middle.Http.{DeviceStates, split_commas, named, signal_groups_of, sse_stream}
use roboplc_middle.Http.Subscribe.{joined, signal_groups_of-joined, Answers, sse_stream-Answers}

abbrev status : Bool → DeviceStatus
status connected = record {
  connected = connected;
  last_communication = 0;
  error_count = 0;
  reconnect_count = 0;
}

abbrev states : DeviceStates
states = ("a", status true) ∷ ("b", status false) ∷ []

abbrev worker : DataStreamWorker
worker = record { config = record { devices = []; streams = [] }; stream_groups = []; sequence = 0 }

abbrev desk : Desk
desk = (1000000, 1, answered (true, Tree.null, none) ∷ [])

-- Spaces round a name are cut off, and empty names are left out.
names : signal_groups_of (codes " speed ,, torque") ≡ codes "speed" ∷ codes "torque" ∷ []
unfolding signal_groups_of named split_commas trim is_whitespace
names = refl

signal_groups_of-joined_example :
    signal_groups_of (joined (codes "speed") (codes "torque" ∷ []))
    ≡ codes "speed" ∷ codes "torque" ∷ []
unfolding trim is_whitespace
signal_groups_of-joined_example =
    signal_groups_of-joined (codes "speed") (codes "torque" ∷ []) ((λ e. cc), refl, omega arith)
      (((λ e. cc), refl, omega arith), tt)

sse_stream-Answers_example :
    Answers sample_json sample_channels "plc-1"
      (signal_groups_of (codes "speed"))
      7
      sample_registry
      (sse_stream sample_json sample_channels "plc-1" (codes "speed") 7 sample_registry ([], 0))
sse_stream-Answers_example =
    sse_stream-Answers sample_json sample_channels 4 "plc-1" (codes "speed") 7 sample_registry
      ([], 0)
      (record {
        different = omega arith;
        issued = omega arith;
        within = omega arith;
        few = omega arith;
      })
