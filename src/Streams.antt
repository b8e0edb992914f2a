-- ===== src/Streams.antt =====
-- The polling of data streams (workers/data_stream_worker.rs). A configuration is parsed from JSON
-- text by serde_json, which is a parameter.
pub mod Groups
pub mod Polls
pub mod Schedule
pub mod Timing
mod Tests
use Prim.Native.String.{◌++◌ as str_append}
use roboplc_middle.Prelude.{
  ℕ, ◌+◌, ◌-◌, ◌*◌, ◌%◌, ◌^◌, Bool, true, false, not, String, List, [], ◌∷◌, ◌++◌, map, Option,
  none, some, leb, if◌then◌else◌, push_back,
}
use roboplc_middle.Prelude.Json.{Json}
use roboplc_middle.Prelude.Maps.{nat_key, find, insert}
use roboplc_middle.Config.{Config, StreamConfig}
use roboplc_middle.Modbus.Io.{Outcome, ok, err}
use roboplc_middle.Modbus.Handler.{read_signal_group}
use roboplc_middle.Messages.{Message, device_control, data_stream_update, config_update}
use roboplc_middle.Hub.{
  Hub, Received, answered, timed_out, disconnected, default_hub_send_timeout,
  send_to_hub_with_protection, take_id,
}
use roboplc_middle.Shared.{DataCache, DataCacheEntry, set, millis}

abbrev pub default_poll_timeout_ms : ℕ
default_poll_timeout_ms = 2000

-- The streams by their interval in milliseconds.
abbrev pub StreamGroups : Type 0
StreamGroups = List (ℕ × List StreamConfig)

-- `or_default`
abbrev pub or_default : Option (List StreamConfig) → List StreamConfig
or_default none = []
or_default (some ss) = ss

unfoldable pub add_stream : StreamConfig → StreamGroups → StreamGroups
add_stream s groups =
    if s.enabled
    then insert s.poll_interval_ms (push_back (or_default (find s.poll_interval_ms groups)) s)
        groups
    else groups

-- The loop over the streams.
unfoldable pub group_loop : StreamGroups → List StreamConfig → StreamGroups
unfolding add_stream
group_loop groups [] = groups
group_loop groups (s ∷ ss) = group_loop (add_stream s groups) ss

unfoldable pub group_streams_by_interval : List StreamConfig → StreamGroups
unfolding group_loop
group_streams_by_interval streams = group_loop [] streams

pub record DataStreamWorker : Type 0 where
  pub config : Config
  pub stream_groups : StreamGroups
  pub sequence : ℕ  -- u64

unfoldable pub new : Config → DataStreamWorker
unfolding group_streams_by_interval
new config = record {
  config = config;
  stream_groups = group_streams_by_interval config.streams;
  sequence = 0;
}

-- `update_config`; a text that is no configuration changes nothing.
unfoldable pub update_config : Option Config → DataStreamWorker → DataStreamWorker
unfolding group_streams_by_interval
update_config none w = w
update_config (some new_config) w = record w {
  config = new_config;
  stream_groups = group_streams_by_interval new_config.streams;
}

-- `format!("{device_id}_{signal_group}")`
unfoldable pub cache_key : String → String → String
cache_key device_id signal_group = str_append device_id (str_append "_" signal_group)

module _ {F64 : Type 0} (js : Json F64) (hub : Hub js.Value) where
  open js use {Value}

  -- The worker, the cache and the world, with what `poll_signal_group` returns.
  abbrev pub Polled : Type 0
  Polled = DataStreamWorker × DataCache Value × hub.State × Bool × ℕ × Value

  -- `get("result")`, then `get("fields")`.
  abbrev pub fields_of : Option Value → Value
  fields_of none = js.null
  fields_of (some r) = elim (js.get r "fields") [ none ↦ js.null | some fs ↦ fs ]

  abbrev pub values_of : Bool → Value → Value
  values_of true reply = fields_of (js.get reply "result")
  values_of false reply = js.null

  -- The broadcast, whose failure is logged.
  abbrev pub broadcast : Message Value → hub.State → hub.State
  unfolding send_to_hub_with_protection
  broadcast m s = (send_to_hub_with_protection hub m default_hub_send_timeout s).0

  -- What follows the wait for the answer, from the time of the request.
  unfoldable pub received :
      String → String → ℕ → DataStreamWorker → DataCache Value → hub.State × Received Value → Polled
  unfolding set cache_key broadcast
  received device_id signal_group start w cache (s, answered (success, reply, error)) =
      let latency_us = (hub.now s - start) % 2 ^ 64 in
      let values = values_of success reply in
      let timestamp_ms = millis (hub.now s) in
      let sequence = (w.sequence + 1) % 2 ^ 64 in
      (
        record w { sequence = sequence },
        set (cache_key device_id signal_group)
            (record {
              values = values;
              timestamp_ms = timestamp_ms;
              latency_us = latency_us;
              error = not success;
            })
            cache,
        broadcast
            (data_stream_update device_id signal_group values timestamp_ms latency_us sequence) s,
        success,
        latency_us,
        values,
      )
  received device_id signal_group start w cache (s, timed_out) = (
    w,
    set (cache_key device_id signal_group)
        (record {
          values = js.null;
          timestamp_ms = millis (hub.now s);
          latency_us = default_poll_timeout_ms * 1000;
          error = true;
        })
        cache,
    s,
    false,
    default_poll_timeout_ms * 1000,
    js.null,
  )
  received device_id signal_group start w cache (s, disconnected) = (w, cache, s, false, 0, js.null)

  -- What follows the send of the request.
  unfoldable pub requested :
      String
      → String
      → ℕ
      → ℕ
      → DataStreamWorker
      → DataCache Value
      → hub.State × Outcome (Unit {0})
      → Polled
  unfolding received
  requested device_id signal_group id start w cache (s, err e) = (w, cache, s, false, 0, js.null)
  requested device_id signal_group id start w cache (s, ok _) =
      received device_id signal_group start w cache (hub.receive id default_poll_timeout_ms s)

  abbrev pub poll_request : String → String → ℕ → Message Value
  poll_request device_id signal_group id =
      device_control device_id read_signal_group
        (js.object (("group_name", js.of_str signal_group) ∷ [])) id (some id)

  -- With a correlation id.
  unfoldable pub poll_with_id :
      String → String → ℕ → DataStreamWorker → DataCache Value → hub.State × ℕ → Polled
  unfolding requested send_to_hub_with_protection
  poll_with_id device_id signal_group start w cache (s, id) =
      requested device_id signal_group id start w cache (
        send_to_hub_with_protection hub (poll_request device_id signal_group id)
          default_hub_send_timeout s)

  unfoldable pub poll_signal_group :
      String → String → DataStreamWorker → DataCache Value → hub.State → Polled
  unfolding poll_with_id take_id
  poll_signal_group device_id signal_group w cache s =
      poll_with_id device_id signal_group (hub.now s) w cache (take_id hub s)
