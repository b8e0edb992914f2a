-- ===== src/Streams/Polls.antt =====
-- What a poll leaves behind (workers/data_stream_worker.rs).
use roboplc_middle.Prelude.{ℕ, ◌+◌, ◌%◌, ◌^◌, ◌≡◌, false, not, String, some, if◌then◌else◌, ◌⊎◌}
use roboplc_middle.Prelude.Json.{Json}
use roboplc_middle.Prelude.Maps.{string_key}
use roboplc_middle.Hub.{Hub, send_to_hub_with_protection, take_id}
use roboplc_middle.Shared.{DataCache, get}
use roboplc_middle.Streams.{DataStreamWorker, cache_key, Polled, poll_request}

module _ {F64 : Type 0} (js : Json F64) (hub : Hub js.Value) where
  -- The world when the wait for the answer to a poll ends: after the id is taken, the request is
  -- sent and the channel is read for two seconds.
  unfoldable pub answer_state : String → String → hub.State → hub.State
  unfolding take_id send_to_hub_with_protection
  answer_state d g s =
      let (s', id) = take_id hub s in
      let sent = send_to_hub_with_protection hub (poll_request js hub d g id) 2000 s' in
      (hub.receive id 2000 sent.0).0

  -- A poll that left nothing: no answer was to be had.
  abbrev pub Skipped : DataStreamWorker → DataCache js.Value → Polled js hub → Type 0
  Skipped w cache (w', cache', s', success, latency_us, values) =
      (w' ≡ w) × (cache' ≡ cache) × (success ≡ false) × (latency_us ≡ 0) × (values ≡ js.null)

  -- A poll that left an entry of a time in the cache, of which all else stays.
  abbrev pub Stored :
      String → String → ℕ → DataStreamWorker → DataCache js.Value → Polled js hub → Type 0
  Stored d g timestamp_ms w cache (w', cache', s', success, latency_us, values) =
      ((k : String)
        → get k cache' ≡ (
            if string_key.beq (cache_key d g) k
            then some (record {
              values = values;
              timestamp_ms = timestamp_ms;
              latency_us = latency_us;
              error = not success;
            })
            else get k cache))
      × (((w' ≡ record w { sequence = (w.sequence + 1) % 2 ^ 64 })
            × ((success ≡ false) → values ≡ js.null))
          ⊎ ((w' ≡ w) × (success ≡ false) × (latency_us ≡ 2000000) × (values ≡ js.null)))

  abbrev pub Recorded :
      String → String → ℕ → DataStreamWorker → DataCache js.Value → Polled js hub → Type 0
  Recorded d g timestamp_ms w cache p = Skipped w cache p ⊎ Stored d g timestamp_ms w cache p
