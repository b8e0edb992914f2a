-- ===== src/Http/Cached.antt =====
-- The data that the HTTP interface shows after polls (workers/http_worker.rs and
-- workers/data_stream_worker.rs).
use roboplc_middle.Prelude.{ℕ, ◌-◌, ◌≡◌, false, not, String, if◌then◌else◌, ◌⊎◌}
use roboplc_middle.Prelude.Json.{Json}
use roboplc_middle.Prelude.Maps.{string_key}
use roboplc_middle.Hub.{Hub}
use roboplc_middle.Shared.{DataCache, millis}
use roboplc_middle.Streams.{Polled, cache_key as poll_key}
use roboplc_middle.Http.{ok_json, hit_json, cache_key, get_cached_data}

module _ {F64 : Type 0} (js : Json F64) (hub : Hub js.Value) where
  -- What requests for the cached data give after a poll that reports `values` at a time.
  pub Shows : String → String → ℕ → DataCache js.Value → Polled js hub → Type 0
  Shows d g timestamp_ms cache (w', cache', s', success, latency_us, values) =
      ((success ≡ false) × (cache' ≡ cache))
      ⊎ ((d' g' : String) (now : ℕ)
          → get_cached_data js d' g' now cache' ≡ (
              if string_key.beq (poll_key d g) (cache_key d' g')
              then ok_json js (
                  hit_json js d' g'
                    (record {
                      values = values;
                      timestamp_ms = timestamp_ms;
                      latency_us = latency_us;
                      error = not success;
                    })
                    (millis now - timestamp_ms))
              else get_cached_data js d' g' now cache))
