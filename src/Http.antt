-- ===== src/Http.antt =====
-- The handlers of the HTTP interface (workers/http_worker.rs): what each answers.
pub mod Health
pub mod Cached
pub mod Subscribe
mod Tests
use Prim.Native.String.{◌++◌ as str_append}
use roboplc_middle.Prelude.{
  ℕ, suc, ◌-◌, ◌/◌, ◌%◌, ◌^◌, Bool, String, List, [], ◌∷◌, map, Option, none, some, ltb, ◌==◌,
  if◌then◌else◌, length,
}
use roboplc_middle.Prelude.Text.{codes}
use roboplc_middle.Prelude.Json.{Json}
use roboplc_middle.Prelude.Maps.{string_key, find}
use roboplc_middle.Modbus.Address.{trim}
use roboplc_middle.Modbus.Io.{Outcome, ok, err}
use roboplc_middle.Shared.{DeviceStatus, DataCache, DataCacheEntry, get, millis}
use roboplc_middle.Sse.{
  Channels, Registry, SseConnection, register, sse_channel_capacity, max_sse_connections,
}

-- The states of the devices by their ids.
abbrev pub DeviceStates : Type 0
DeviceStates = List (String × DeviceStatus)

-- A status code and a JSON body.
pub record HttpResponse (Value : Type 0) : Type 0 where
  pub status : ℕ
  pub body : Value

module _ {F64 : Type 0} (js : Json F64) where
  open js use {Value}

  abbrev pub ok_json : Value → HttpResponse Value
  ok_json v = record { status = 200; body = v }

  abbrev pub not_found : Value → HttpResponse Value
  not_found v = record { status = 404; body = v }

  -- `elapsed().as_millis() as u64` at an instant in microseconds.
  abbrev pub elapsed_ms : ℕ → DeviceStatus → ℕ
  elapsed_ms instant status = (instant - status.last_communication) / 1000 % 2 ^ 64

  abbrev pub device_json : ℕ → String × DeviceStatus → Value
  device_json instant (id, status) = js.object (
      ("id", js.of_str id)
      ∷ ("connected", js.of_bool status.connected)
      ∷ ("last_communication_ms", js.of_u64 (elapsed_ms instant status))
      ∷ ("error_count", js.of_u64 status.error_count)
      ∷ [])

  unfoldable pub get_devices : ℕ → DeviceStates → HttpResponse Value
  get_devices instant states =
      ok_json (js.object (("devices", js.array (map (device_json instant) states)) ∷ []))

  unfoldable pub get_device_by_id : String → ℕ → DeviceStates → HttpResponse Value
  get_device_by_id device_id instant states = elim (find device_id states) [
    | none ↦ not_found (js.object (("error", js.of_str "Device not found") ∷ []))
    | some status ↦ ok_json (
        js.object (
          ("id", js.of_str device_id)
          ∷ ("connected", js.of_bool status.connected)
          ∷ ("last_communication_ms", js.of_u64 (elapsed_ms instant status))
          ∷ ("error_count", js.of_u64 status.error_count)
          ∷ ("reconnect_count", js.of_u64 status.reconnect_count)
          ∷ []))
  ]

-- `filter(connected).count()`
unfoldable pub connected_count : DeviceStates → ℕ
connected_count [] = 0
connected_count ((id, status) ∷ rest) =
    let n = connected_count rest in if status.connected then suc n else n

unfoldable pub health_status : ℕ → ℕ → String
health_status total connected =
    if total == 0
    then "unhealthy"
    else if connected == total
    then "healthy"
    else if connected == 0
    then "unhealthy"
    else "degraded"

abbrev pub cache_ttl_ms : ℕ
cache_ttl_ms = 50

-- `format!("{}_{}", device_id, signal_group)`
unfoldable pub cache_key : String → String → String
cache_key device_id signal_group = str_append device_id (str_append "_" signal_group)

module _ {F64 : Type 0} (js : Json F64) where
  open js use {Value}

  abbrev pub health_json : String → ℕ → ℕ → ℕ → Value
  health_json status total connected disconnected = js.object (
      ("status", js.of_str status)
      ∷ (
        "devices",
        js.object (
            ("total", js.of_u64 total)
            ∷ ("connected", js.of_u64 connected)
            ∷ ("disconnected", js.of_u64 disconnected)
            ∷ []),
      )
      ∷ [])

  unfoldable pub get_health : DeviceStates → HttpResponse Value
  unfolding connected_count health_status
  get_health states =
      let total = length states in
      let connected = connected_count states in
      ok_json js (health_json (health_status total connected) total connected (total - connected))

  -- Reloads nothing.
  unfoldable pub reload_config : HttpResponse Value
  reload_config = ok_json js (js.object (("reload", js.of_str "ok") ∷ []))

  abbrev pub hit_json : String → String → DataCacheEntry Value → ℕ → Value
  hit_json device_id signal_group entry cache_age_ms = js.object (
      ("device_id", js.of_str device_id)
      ∷ ("signal_group", js.of_str signal_group)
      ∷ ("values", entry.values)
      ∷ ("timestamp_ms", js.of_u64 entry.timestamp_ms)
      ∷ ("cache_age_ms", js.of_u64 cache_age_ms)
      ∷ ("fresh", js.of_bool (ltb cache_age_ms cache_ttl_ms))
      ∷ [])

  abbrev miss_text : String → String → String
  miss_text device_id signal_group =
      str_append "Cache miss: no data found for device '"
        (str_append device_id (str_append "' and signal group '" (str_append signal_group "'")))

  abbrev pub miss_json : String → String → Value
  miss_json device_id signal_group = js.object (
      ("error", js.of_str (miss_text device_id signal_group))
      ∷ ("device_id", js.of_str device_id)
      ∷ ("signal_group", js.of_str signal_group)
      ∷ [])

  -- At a time in microseconds.
  unfoldable pub get_cached_data : String → String → ℕ → DataCache Value → HttpResponse Value
  unfolding get cache_key
  get_cached_data device_id signal_group now cache =
      elim (get (cache_key device_id signal_group) cache) [
        | none ↦ not_found js (miss_json device_id signal_group)
        | some entry ↦
            ok_json js (hit_json device_id signal_group entry (millis now - entry.timestamp_ms))
      ]

-- `split(',')`: the text before the first comma, and the others.
unfoldable pub split_commas : List ℕ → List ℕ × List (List ℕ)
split_commas [] = ([], [])
split_commas (c ∷ cs) =
    let (first, others) = split_commas cs in
    if c == b',' then ([], first ∷ others) else (c ∷ first, others)

abbrev pub all_parts : List ℕ × List (List ℕ) → List (List ℕ)
all_parts (first, others) = first ∷ others

-- `map` of the trim, then `filter` of those that are not empty.
unfoldable pub named : List (List ℕ) → List (List ℕ)
named [] = []
named (p ∷ ps) = elim (trim p) [ [] ↦ named ps | c ∷ cs ↦ (c ∷ cs) ∷ named ps ]

unfoldable pub signal_groups_of : List ℕ → List (List ℕ)
unfolding named split_commas
signal_groups_of groups = named (all_parts (split_commas groups))

-- `Either` an error or the stream of a connection, whose end of the channel is not modelled.
pub data SseAnswer (Value : Type 0) : Type 0 where
  refused : ℕ → Value → SseAnswer Value
  streaming : ℕ → SseAnswer Value

module _ {F64 : Type 0} (js : Json F64) (ch : Channels js.Value) where
  abbrev pub Answered : Type 0
  Answered = Registry ch × ch.State × SseAnswer js.Value

  -- What follows `register`; its error's text is the one that it has.
  abbrev pub registered : ch.State → Registry ch × Outcome ℕ → Answered
  registered s (r, ok id) = (r, s, streaming id)
  registered s (r, err e) = (
    r,
    s,
    refused 503 (
        js.object (
          (
            "error",
            js.of_str "Maximum SSE connections limit reached (100). Rejecting new connection.",
          )
          ∷ [])),
  )

  abbrev pub subscribe : String → List (List ℕ) → ℕ → Registry ch → ch.State × ch.Sender → Answered
  unfolding register
  subscribe device_id groups connected_at r (s, sender) = registered s (
      register
        (record {
          device_id = device_id;
          signal_groups = groups;
          connected_at = connected_at;
          sender = sender;
        })
        r)

  -- For the groups of the query; no group is a bad request.
  abbrev pub stream_groups : String → List (List ℕ) → ℕ → Registry ch → ch.State → Answered
  unfolding register
  stream_groups device_id [] now r s =
      (r, s, refused 400 (js.object (("error", js.of_str "No signal groups specified") ∷ [])))
  stream_groups device_id (g ∷ gs) now r s =
      subscribe device_id (g ∷ gs) (millis now) r (ch.channel sse_channel_capacity s)

  -- At a time in microseconds.
  unfoldable pub sse_stream : String → List ℕ → ℕ → Registry ch → ch.State → Answered
  unfolding signal_groups_of stream_groups register
  sse_stream device groups now r s = stream_groups device (signal_groups_of groups) now r s
