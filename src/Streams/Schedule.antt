-- ===== src/Streams/Schedule.antt =====
-- The loop of the data stream worker (workers/data_stream_worker.rs, `run`): one round of it.
use roboplc_middle.Prelude.{
  ℕ, ◌-◌, ◌*◌, String, List, [], ◌∷◌, map, Option, none, some, leb, if◌then◌else◌,
}
use roboplc_middle.Prelude.Json.{Json}
use roboplc_middle.Prelude.Maps.{nat_key, find, insert}
use roboplc_middle.Config.{Config, StreamConfig}
use roboplc_middle.Messages.{Message, config_update}
use roboplc_middle.Hub.{Hub}
use roboplc_middle.Shared.{DataCache}
use roboplc_middle.Streams.{
  StreamGroups, DataStreamWorker, update_config, Polled, poll_signal_group,
}

-- `last_poll_times`: instants in microseconds by the interval.
abbrev pub PollTimes : Type 0
PollTimes = List (ℕ × ℕ)

-- The loop that starts the timers of all groups.
unfoldable pub start_timers : ℕ → StreamGroups → PollTimes → PollTimes
start_timers now [] times = times
start_timers now ((interval_ms, ss) ∷ groups) times =
    start_timers now groups (insert interval_ms now times)

-- `entry(..).or_insert(now)`: the map, and the time.
unfoldable pub or_insert : ℕ → ℕ → PollTimes → PollTimes
or_insert i now times = elim (find i times) [ none ↦ insert i now times | some t ↦ times ]

unfoldable pub last_poll : ℕ → ℕ → PollTimes → ℕ
last_poll i now times = elim (find i times) [ none ↦ now | some t ↦ t ]

abbrev pub item : StreamConfig → String × String
item s = (s.device_id, s.signal_group)

-- The polls of a group, by its interval.
abbrev pub GroupPolls : Type 0
GroupPolls = ℕ × List (String × String)

-- The loop that collects `polls_to_run`.
unfoldable pub collect : ℕ → StreamGroups → PollTimes → PollTimes × List GroupPolls
unfolding or_insert last_poll
collect now [] times = (times, [])
collect now ((interval_ms, streams) ∷ groups) times =
    let elapsed = now - last_poll interval_ms now times in
    let (times', polls) = collect now groups (or_insert interval_ms now times) in
    (
      times',
      if leb (interval_ms * 1000) elapsed then (interval_ms, map item streams) ∷ polls else polls,
    )

module _ {F64 : Type 0} (js : Json F64) (hub : Hub js.Value) where
  abbrev pub World : Type 0
  World = DataStreamWorker × DataCache js.Value × hub.State

  abbrev pub unpolled : Polled js hub → World
  unpolled (w, cache, s, success, latency_us, values) = (w, cache, s)

  unfoldable pub poll : String → String → World → World
  unfolding poll_signal_group
  poll device_id signal_group (w, cache, s) =
      unpolled (poll_signal_group js hub device_id signal_group w cache s)

  unfoldable pub poll_items : List (String × String) → World → World
  unfolding poll
  poll_items [] world = world
  poll_items ((device_id, signal_group) ∷ items) world =
      poll_items items (poll device_id signal_group world)

  -- The polls, each group's time being that of its end.
  unfoldable pub run_polls : List GroupPolls → World × PollTimes → World × PollTimes
  unfolding poll_items
  run_polls [] r = r
  run_polls ((interval_ms, items) ∷ polls) (world, times) =
      let world' = poll_items items world in
      run_polls polls (world', insert interval_ms (hub.instant world'.2) times)

  -- What follows the check for a message.
  unfoldable pub poll_round : World × PollTimes → World × PollTimes
  unfolding collect run_polls
  poll_round ((w, cache, s), times) =
      let (times', polls) = collect (hub.instant s) w.stream_groups times in
      run_polls polls ((w, cache, s), times')

  -- `try_recv`, with `serde_json::from_str` as a parameter.
  unfoldable pub take_message :
      (List ℕ → Option Config) → Option (Message js.Value) → World × PollTimes → World × PollTimes
  unfolding start_timers update_config
  take_message from_str (some (config_update config)) ((w, cache, s), times) =
      let w' = update_config (from_str config) w in
      ((w', cache, s), start_timers (hub.instant s) w'.stream_groups [])
  take_message from_str _ r = r

  -- One round of the loop while the worker is online.
  unfoldable pub round :
      (List ℕ → Option Config) → Option (Message js.Value) → World × PollTimes → World × PollTimes
  unfolding poll_round take_message
  round from_str message r = poll_round (take_message from_str message r)
