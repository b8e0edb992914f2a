-- ===== src/Latency/Windows.antt =====
-- The windows of the latency monitor (workers/latency_monitor.rs).
use mathlib.Core.List.{append_assoc, append-nil}
use mathlib.Core.Path.{subst}
use roboplc_middle.Prelude.{
  ℕ, ◌-◌, ◌≤◌, ◌<◌, ◌≡◌, refl, sym, ap, ◌∙◌, true, false, String, List, [], ◌∷◌, ◌++◌, Option, none,
  some, arith, ltb, if◌then◌else◌, inl, inr, Bool-cases, length,
}
use roboplc_middle.Prelude.Maps.{string_key, find, insert, find-insert}
use roboplc_middle.Modbus.State.{DeviceEvent, error_event}
use roboplc_middle.Latency.{
  Arith, Stats, latency_window, new, add_sample, is_anomaly, anomaly_threshold, LatencyMonitor,
  or_new, processed, sigma_threshold, std_dev, min_anomaly_samples, process_latency_sample,
}
use roboplc_middle.Latency.LastSamples.{length-drop}
use roboplc_middle.Latency.Running.{history, running, running_from, add_sample-history}

-- The device, the latency and the time of a heartbeat.
abbrev pub Heartbeat : Type 0
Heartbeat = String × ℕ × ℕ

-- The latencies of the heartbeats of a device, in order.
unfoldable pub latencies_of : String → List Heartbeat → List ℕ
latencies_of j [] = []
latencies_of j ((d, latency_us, timestamp_ms) ∷ hs) =
    let rest = latencies_of j hs in if string_key.beq d j then latency_us ∷ rest else rest

module _ (ar : Arith) where
  -- The monitor after some heartbeats.
  unfoldable pub after : List Heartbeat → LatencyMonitor ar → LatencyMonitor ar
  after [] m = m
  after ((d, latency_us, timestamp_ms) ∷ hs) m =
      after hs (process_latency_sample ar d latency_us timestamp_ms m).0

  -- The statistics of a device.
  unfoldable pub stats_of : String → LatencyMonitor ar → Stats ar
  unfolding or_new
  stats_of j m = or_new ar (find j m)

  stats_of-insert :
      (j d : String) (st : Stats ar) (m : LatencyMonitor ar)
      → stats_of j (insert d st m) ≡ (if string_key.beq d j then st else stats_of j m)
  unfolding stats_of or_new
  stats_of-insert j d st m =
      ap (λ o. or_new ar o) (find-insert d j st m)
      ∙ (elim (Bool-cases (string_key.beq d j)) [ inl e ↦ rw e refl | inr e ↦ rw e refl ])

  stats-step :
      (j d : String) (latency_us timestamp_ms : ℕ) (m : LatencyMonitor ar) (past : List ℕ)
      → stats_of j m ≡ history ar past
      → stats_of j (process_latency_sample ar d latency_us timestamp_ms m).0
        ≡ history ar (past ++ latencies_of j ((d, latency_us, timestamp_ms) ∷ []))
  unfolding process_latency_sample latencies_of processed stats_of
  stats-step j d latency_us timestamp_ms m past e =
      stats_of-insert j d (add_sample ar latency_us (or_new ar (find d m))) m
      ∙ (elim (Bool-cases (string_key.beq d j)) [
        | inl same ↦ rw same (
            ap (add_sample ar latency_us) (
              subst (λ k. stats_of k m ≡ history ar past) (sym ((string_key.beq_iff d j).0 same)) e)
            ∙ add_sample-history ar latency_us past)
        | inr other ↦ rw (other, append-nil past) e
      ])

  latencies-cons :
      (j : String) (h : Heartbeat) (hs : List Heartbeat)
      → latencies_of j (h ∷ hs) ≡ latencies_of j (h ∷ []) ++ latencies_of j hs
  unfolding latencies_of
  latencies-cons j (d, latency_us, timestamp_ms) hs = elim (Bool-cases (string_key.beq d j)) [
    | inl e ↦ rw e
    | inr e ↦ rw e
  ]

  stats-from :
      (j : String) (hs : List Heartbeat) (m : LatencyMonitor ar) (past : List ℕ)
      → stats_of j m ≡ history ar past
      → stats_of j (after hs m) ≡ history ar (past ++ latencies_of j hs)
  unfolding after latencies_of
  stats-from j [] m past e = rw (append-nil past) e
  stats-from j ((d, latency_us, timestamp_ms) ∷ hs) m past e =
      let h : Heartbeat = (d, latency_us, timestamp_ms) in
      stats-from j hs (process_latency_sample ar d latency_us timestamp_ms m).0
        (past ++ latencies_of j (h ∷ [])) (stats-step j d latency_us timestamp_ms m past e)
      ∙ ap (history ar) (
          append_assoc past (latencies_of j (h ∷ [])) (latencies_of j hs)
          ∙ ap (λ (ys : List ℕ). past ++ ys) (sym (latencies-cons j h hs)))

  all_stats :
      (j : String) (hs : List Heartbeat) → stats_of j (after hs []) ≡ history ar (latencies_of j hs)
  unfolding stats_of or_new new find history running running_from
  all_stats j hs = stats-from j hs [] [] refl

  -- The latency is more than three standard deviations above the mean, by some moments.
  abbrev pub Exceeds : ℕ → Stats ar → Type 0
  Exceeds latency_us st =
      ar.lt (ar.add st.mean (ar.mul (sigma_threshold ar) (std_dev ar st))) (ar.of_u64 latency_us)
      ≡ true

  -- What a heartbeat of a device leads to, after the given number of its heartbeats.
  pub data Judged (h : Heartbeat) (before : ℕ) (st : Stats ar) : Option DeviceEvent → Type 0 where
    few : before < min_anomaly_samples → Judged h before st none
    usual : min_anomaly_samples ≤ before → ¬ Exceeds h.1 st → Judged h before st none
    anomaly :
        (e : DeviceEvent)
        → min_anomaly_samples ≤ before
        → Exceeds h.1 st
        → e.device_id ≡ h.0
        → e.event_type ≡ error_event
        → e.timestamp_ms ≡ h.2
        → Judged h before st (some e)

  is_anomaly-few :
      (latency_us : ℕ) (st : Stats ar)
      → length st.samples < min_anomaly_samples
      → is_anomaly ar latency_us st ≡ false
  unfolding is_anomaly anomaly_threshold
  is_anomaly-few latency_us st l =
      let e : ltb (length st.samples) 10 ≡ true = ground arith in rw (e, is_anomaly) refl

  is_anomaly-Exceeds :
      (latency_us : ℕ) (st : Stats ar)
      → min_anomaly_samples ≤ length st.samples
      → (is_anomaly ar latency_us st ≡ true) ≡ Exceeds latency_us st
  unfolding is_anomaly anomaly_threshold
  is_anomaly-Exceeds latency_us st l =
      let e : ltb (length st.samples) 10 ≡ false = ground arith in rw (e, is_anomaly) refl

  judged :
      (d : String) (latency_us timestamp_ms : ℕ) (before : ℕ) (st : Stats ar)
      (m : LatencyMonitor ar)
      → length st.samples ≡ before - (before - latency_window)
      → Judged
          (d, latency_us, timestamp_ms)
          before
          st
          (processed ar d latency_us timestamp_ms st m).1
  unfolding processed
  judged d latency_us timestamp_ms before st m n =
      elim (Bool-cases (ltb before min_anomaly_samples)) [
        | inl e ↦ rw (is_anomaly-few latency_us st (ground arith)) (few (ground arith))
        | inr e ↦
            let same = is_anomaly-Exceeds latency_us st (ground arith) in
            elim (Bool-cases (is_anomaly ar latency_us st)) [
              | inl f ↦ rw f (anomaly _ (ground arith) (subst (λ A. A) same f) refl refl refl)
              | inr f ↦ rw f (
                  usual (ground arith)
                    (λ g. let yes = subst (λ A. A) (sym same) g in ground (arith, yes, f)))
            ]
      ]

  -- After any heartbeats on a new monitor, the statistics of each device are those of the history of
  -- its latencies: its last 100, in order, and the mean, the number and the sum of squares that
  -- Welford's formulas give if each latency is included when it comes and, from the 101st on, the one
  -- of 100 before is excluded first. The next heartbeat of a device gives no event if the device had
  -- fewer than 10 or its latency is at most three standard deviations above the mean, by those
  -- moments; if not, it gives an error event with its device and time.
  pub process-Judged :
      (hs : List Heartbeat) (d : String) (latency_us timestamp_ms : ℕ)
      → ((j : String) → stats_of j (after hs []) ≡ history ar (latencies_of j hs))
        × Judged
            (d, latency_us, timestamp_ms)
            (length (latencies_of d hs))
            (history ar (latencies_of d hs))
            (process_latency_sample ar d latency_us timestamp_ms (after hs [])).1
  unfolding process_latency_sample stats_of history
  process-Judged hs d latency_us timestamp_ms =
      let xs = latencies_of d hs in
      (
        λ j. all_stats j hs,
        subst
            (λ (st : Stats ar).
              Judged (d, latency_us, timestamp_ms) (length xs) (history ar xs)
                (processed ar d latency_us timestamp_ms st (after hs [])).1)
            (sym (all_stats d hs))
            (judged d latency_us timestamp_ms (length xs) (history ar xs) (after hs [])
              (length-drop (length xs - latency_window) xs)),
      )
