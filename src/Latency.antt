-- ===== src/Latency.antt =====
-- The latency monitor (workers/latency_monitor.rs): a window of samples for each device, with
-- running statistics. The arithmetic of f64 is an interface without laws.
pub mod LastSamples
pub mod Running
pub mod Windows
mod Tests
use roboplc_middle.Prelude.{
  ℕ, ◌+◌, Bool, true, false, String, List, [], ◌∷◌, ◌++◌, Option, none, some, ltb, leb,
  if◌then◌else◌, length, push_back,
}
use roboplc_middle.Prelude.Text.{codes, decimal}
use roboplc_middle.Prelude.Maps.{string_key, find, insert}
use roboplc_middle.Modbus.State.{DeviceEvent, error_event}

-- What the statistics use of f64.
pub record Arith : Type 1 where
  pub F64 : Type 0
  pub of_u64 : ℕ → F64
  pub add : F64 → F64 → F64
  pub sub : F64 → F64 → F64
  pub mul : F64 → F64 → F64
  pub div : F64 → F64 → F64
  pub sqrt : F64 → F64
  pub le : F64 → F64 → Bool
  pub lt : F64 → F64 → Bool
  -- `{:.2}`
  pub two_digits : F64 → List ℕ

abbrev pub latency_window : ℕ
latency_window = 100

abbrev pub min_anomaly_samples : ℕ
min_anomaly_samples = 10

pub record LatencyStats (F64 : Type 0) : Type 0 where
  pub samples : List ℕ
  pub mean : F64
  pub count : F64
  pub m2 : F64

module _ (ar : Arith) where
  open ar use {F64, of_u64, add, sub, mul, div, sqrt, le, lt, two_digits}

  abbrev pub Stats : Type 0
  Stats = LatencyStats F64

  abbrev pub sigma_threshold : F64
  sigma_threshold = of_u64 3

  unfoldable pub new : Stats
  new = record { samples = []; mean = of_u64 0; count = of_u64 0; m2 = of_u64 0 }

  unfoldable pub remove_sample_welford : ℕ → Stats → Stats
  remove_sample_welford old st =
      let x = of_u64 old in
      let delta = sub x st.mean in
      let count = sub st.count (of_u64 1) in
      let mean = sub st.mean (div delta count) in
      let delta2 = sub x mean in
      if le st.count (of_u64 1)
      then record st { count = of_u64 0; mean = of_u64 0; m2 = of_u64 0 }
      else record st { count = count; mean = mean; m2 = sub st.m2 (mul delta delta2) }

  -- `pop_front`, and the removal from the statistics.
  abbrev pub drop_oldest : List ℕ → Stats → Stats
  unfolding remove_sample_welford
  drop_oldest [] st = st
  drop_oldest (old ∷ rest) st = remove_sample_welford old (record st { samples = rest })

  abbrev pub append_sample : ℕ → Stats → Stats
  append_sample latency_us st =
      let x = of_u64 latency_us in
      let count = add st.count (of_u64 1) in
      let delta = sub x st.mean in
      let mean = add st.mean (div delta count) in
      let delta2 = sub x mean in
      record {
        samples = push_back st.samples latency_us;
        mean = mean;
        count = count;
        m2 = add st.m2 (mul delta delta2);
      }

  unfoldable pub add_sample : ℕ → Stats → Stats
  unfolding drop_oldest
  add_sample latency_us st =
      append_sample latency_us
        (if leb latency_window (length st.samples) then drop_oldest st.samples st else st)

  unfoldable pub std_dev : Stats → F64
  std_dev st = if lt (of_u64 0) st.count then sqrt (div st.m2 st.count) else of_u64 0

  unfoldable pub anomaly_threshold : Stats → Option F64
  unfolding std_dev
  anomaly_threshold st =
      if ltb (length st.samples) min_anomaly_samples
      then none
      else some (add st.mean (mul sigma_threshold (std_dev st)))

  unfoldable pub is_anomaly : ℕ → Stats → Bool
  unfolding anomaly_threshold
  is_anomaly latency_us st = elim (anomaly_threshold st) [
    | none ↦ false
    | some threshold ↦ lt threshold (of_u64 latency_us)
  ]

  -- `LatencyMonitor`: the statistics by the device.
  abbrev pub LatencyMonitor : Type 0
  LatencyMonitor = List (String × Stats)

  abbrev pub or_new : Option Stats → Stats
  unfolding new
  or_new none = new
  or_new (some st) = st

  abbrev pub or_zero : Option F64 → F64
  or_zero none = of_u64 0
  or_zero (some x) = x

  -- The text of an event, with the statistics of after the sample.
  abbrev pub anomaly_text : ℕ → Option F64 → Stats → List ℕ
  unfolding std_dev
  anomaly_text latency_us threshold st =
      codes "Latency anomaly: "
      ++ (decimal latency_us
          ++ (codes "us exceeds "
              ++ (two_digits (or_zero threshold)
                  ++ (codes "us (mean "
                      ++ (two_digits st.mean
                          ++ (codes "us, σ " ++ (two_digits (std_dev st) ++ codes "us)")))))))

  abbrev pub processed :
      String → ℕ → ℕ → Stats → LatencyMonitor → LatencyMonitor × Option DeviceEvent
  unfolding add_sample is_anomaly anomaly_threshold
  processed device_id latency_us timestamp_ms st monitor =
      let after = add_sample latency_us st in
      (
        insert device_id after monitor,
        if is_anomaly latency_us st
            then some (record {
              device_id = device_id;
              event_type = error_event;
              timestamp_ms = timestamp_ms;
              details = anomaly_text latency_us (anomaly_threshold st) after;
            })
            else none,
      )

  unfoldable pub process_latency_sample :
      String → ℕ → ℕ → LatencyMonitor → LatencyMonitor × Option DeviceEvent
  unfolding processed or_new
  process_latency_sample device_id latency_us timestamp_ms monitor =
      processed device_id latency_us timestamp_ms (or_new (find device_id monitor)) monitor
