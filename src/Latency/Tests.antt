-- ===== src/Latency/Tests.antt =====
-- The latency monitor at concrete inputs, with natural numbers for f64.
use roboplc_middle.Prelude.{
  ℕ, zero, suc, ◌+◌, ◌-◌, ◌*◌, ◌≡◌, refl, String, List, [], ◌∷◌, ltb, leb, length,
}
use roboplc_middle.Prelude.Text.{decimal}
use roboplc_middle.Prelude.Maps.{string_key}
use roboplc_middle.Latency.{Arith, process_latency_sample}
use roboplc_middle.Latency.Running.{history}
use roboplc_middle.Latency.Windows.{
  Heartbeat, latencies_of, after, stats_of, Judged, process-Judged,
}

abbrev sample_arith : Arith
sample_arith = record {
  F64 = ℕ;
  of_u64 = λ n. n;
  add = ◌+◌;
  sub = ◌-◌;
  mul = ◌*◌;
  div = λ a b. a;
  sqrt = λ a. a;
  le = leb;
  lt = ltb;
  two_digits = decimal;
}

abbrev repeated : ℕ → List Heartbeat
repeated zero = []
repeated (suc n) = ("arm", 100 + n, 7) ∷ ("leg", 50, 8) ∷ repeated n

abbrev heartbeats : List Heartbeat
heartbeats = repeated 12

process-Judged_example :
    ((j : String)
      → stats_of sample_arith j (after sample_arith heartbeats [])
        ≡ history sample_arith (latencies_of j heartbeats))
    × Judged sample_arith
        ("arm", 90000, 9)
        (length (latencies_of "arm" heartbeats))
        (history sample_arith (latencies_of "arm" heartbeats))
        (process_latency_sample sample_arith "arm" 90000 9 (after sample_arith heartbeats [])).1
process-Judged_example = process-Judged sample_arith heartbeats "arm" 90000 9

heard : length (latencies_of "arm" heartbeats) ≡ 12
unfolding latencies_of
heard = refl
