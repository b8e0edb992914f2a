-- ===== src/Streams/Tests.antt =====
-- The polling of data streams at concrete inputs.
use roboplc_middle.Prelude.{
  ℕ, ◌-◌, ◌*◌, ◌≤◌, ◌≡◌, refl, true, false, String, ◌&&◌, ◌⊎◌, List, [], ◌∷◌, some, none, leb,
  if◌then◌else◌,
}
use roboplc_middle.Prelude.Maps.{nat_key, string_key, IsMap, find, insert}
use roboplc_middle.Prelude.Sample.{Tree, sample_json}
use roboplc_middle.Config.{StreamConfig}
use roboplc_middle.Hub.{answered}
use roboplc_middle.Hub.Sample.{Desk, sample_hub}
use roboplc_middle.Streams.{DataStreamWorker, group_streams_by_interval, group_loop, add_stream}
use roboplc_middle.Streams.Groups.{streams_at, if_any, group_streams-find}
use roboplc_middle.Streams.Schedule.{PollTimes, last_poll, poll_round}
use roboplc_middle.Streams.Timing.{due, items_of, poll_each, has_group, poll_round-Timed}

abbrev stream : String → ℕ → StreamConfig
stream g i = record {
  device_id = "plc-1";
  signal_group = g;
  poll_interval_ms = i;
  enabled = true;
  priority = 0;
}

abbrev disabled : StreamConfig
disabled = record (stream "off" 50) { enabled = false }

abbrev streams : List StreamConfig
streams = stream "a" 100 ∷ disabled ∷ stream "b" 200 ∷ stream "c" 100 ∷ []

grouped :
    group_streams_by_interval streams
    ≡ (100, stream "a" 100 ∷ stream "c" 100 ∷ []) ∷ (200, stream "b" 200 ∷ []) ∷ []
unfolding group_streams_by_interval group_loop add_stream insert find
grouped = refl

group_streams-find_example :
    ((i : ℕ) → find i (group_streams_by_interval streams) ≡ if_any (streams_at i streams))
    × IsMap (group_streams_by_interval streams)
group_streams-find_example = group_streams-find streams

abbrev worker : DataStreamWorker
worker = record {
  config = record { devices = []; streams = streams };
  stream_groups = (100, stream "a" 100 ∷ stream "c" 100 ∷ []) ∷ (200, stream "b" 200 ∷ []) ∷ [];
  sequence = 7;
}

abbrev desk : Desk
desk = (1000000, 1, answered (true, Tree.null, none) ∷ [])

-- The group of 100 ms is due, that of 200 ms is not.
abbrev timers : PollTimes
timers = (100, 880000) ∷ (200, 900000) ∷ []

poll_round-Timed_example :
    ((poll_round sample_json sample_hub ((worker, [], desk), timers)).0
      ≡ poll_each sample_json sample_hub
          (items_of (due 1000000 timers worker.stream_groups))
          (worker, [], desk))
    × ((i : ℕ)
        → let times' = (poll_round sample_json sample_hub ((worker, [], desk), timers)).1 in
          let passed = leb (i * 1000) (1000000 - last_poll i 1000000 timers) in
          let has = has_group i worker.stream_groups in
          ((has && passed ≡ true) × ((t : ℕ) × (find i times' ≡ some t) × (1000000 ≤ t)))
          ⊎ ((has && passed ≡ false)
              × (find i times'
                  ≡ (if has then some (last_poll i 1000000 timers) else find i timers))))
poll_round-Timed_example = poll_round-Timed sample_json sample_hub worker [] desk timers
