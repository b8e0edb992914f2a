-- ===== src/Modbus/Queue/Threads.antt =====
-- Threads that run the loops of `try_acquire_atomic` and `complete` (workers/modbus/types.rs) at
-- once, interleaved at each atomic instruction. A schedule names the thread that moves next.
use roboplc_middle.Prelude.{
  ℕ, zero, suc, ◌+◌, ◌-◌, ◌≤◌, ◌<◌, ◌≡◌, refl, ◌∙◌, arith, List, [], ◌∷◌, none, some, leb, ◌==◌,
  if◌then◌else◌, get_elem?, set, replicate, All, Option-cases, inl, inr,
}

-- Where a thread stands: outside, in `try_acquire_atomic` or at work, or in `complete`; with the
-- attempts that are left and the value that was loaded.
pub data Pc : Type 0 where
  idle : Pc
  acquire_load : ℕ → Pc
  acquire_exchange : ℕ → ℕ → Pc
  working : Pc
  complete_load : ℕ → Pc
  complete_exchange : ℕ → ℕ → Pc

-- `lost` counts, for the statements only, the times that `complete` gave up after 100 attempts.
pub record Shared : Type 0 where
  pub in_flight : ℕ
  pub max_in_flight : ℕ
  pub lost : ℕ
  pub threads : List Pc

-- The next instruction of a thread: the counter, the losses and where it stands then.
unfoldable pub instruction : ℕ → ℕ → ℕ → Pc → ℕ × ℕ × Pc
instruction max n lost idle = (n, lost, acquire_load 100)
instruction max n lost (acquire_load zero) = (n, lost, idle)
instruction max n lost (acquire_load (suc left)) =
    (n, lost, if leb max n then idle else acquire_exchange left n)
instruction max n lost (acquire_exchange left current) =
    if n == current then (n + 1, lost, working) else (n, lost, acquire_load left)
instruction max n lost working = (n, lost, complete_load 100)
instruction max n lost (complete_load zero) = (n, lost + 1, idle)
instruction max n lost (complete_load (suc left)) =
    (n, lost, if n == 0 then idle else complete_exchange left n)
instruction max n lost (complete_exchange left current) =
    if n == current then (n - 1, lost, idle) else (n, lost, complete_load left)

-- Thread `i` moves.
unfoldable pub move : Shared → ℕ → Shared
unfolding instruction
move s i = elim (get_elem? s.threads i) [
  | none ↦ s
  | some pc ↦
      let (n, lost, pc') = instruction s.max_in_flight s.in_flight s.lost pc in
      record s { in_flight = n; lost = lost; threads = set s.threads i pc' }
]

unfoldable pub run : Shared → List ℕ → Shared
unfolding move
run s [] = s
run s (i ∷ schedule) = run (move s i) schedule

unfoldable pub start : ℕ → ℕ → Shared
start max count = record {
  in_flight = 0;
  max_in_flight = max;
  lost = 0;
  threads = replicate count idle;
}

-- Whether a thread holds a unit of capacity.
abbrev pub holds : Pc → ℕ
holds working = 1
holds (complete_load left) = 1
holds (complete_exchange left current) = 1
holds _ = 0

abbrev pub holders : List Pc → ℕ
holders [] = 0
holders (pc ∷ pcs) = holds pc + holders pcs

-- The threads between a successful `try_acquire_atomic` and its `complete`.
abbrev pub at_work : List Pc → ℕ
at_work [] = 0
at_work (working ∷ pcs) = suc (at_work pcs)
at_work (_ ∷ pcs) = at_work pcs

-- A thread about to exchange has loaded a value below the limit.
abbrev pub PcOk : ℕ → Pc → Type 0
PcOk max (acquire_exchange left current) = current < max
PcOk max (complete_exchange left current) = 0 < current
PcOk max _ = Unit {0}

pub record Inv (s : Shared) : Type 0 where
  pub counted : s.in_flight ≡ holders s.threads + s.lost
  pub limited : s.in_flight ≤ s.max_in_flight
  pub pcs_ok : All (PcOk s.max_in_flight) s.threads

holders-set :
    (pcs : List Pc) (i : ℕ) (pc pc' : Pc)
    → get_elem? pcs i ≡ some pc
    → holders (set pcs i pc') + holds pc ≡ holders pcs + holds pc'
holders-set [] i pc pc' e = cc
holders-set (x ∷ pcs) zero pc pc' e = let same : x ≡ pc = cc in rw same (omega arith)
holders-set (x ∷ pcs) (suc i) pc pc' e = omega (arith, holders-set pcs i pc pc' e)

holds-le-holders :
    (pcs : List Pc) (i : ℕ) (pc : Pc) → get_elem? pcs i ≡ some pc → holds pc ≤ holders pcs
holds-le-holders [] i pc e = cc
holds-le-holders (x ∷ pcs) zero pc e = let same : x ≡ pc = cc in rw same (omega arith)
holds-le-holders (x ∷ pcs) (suc i) pc e = omega (arith, holds-le-holders pcs i pc e)

All-get :
    (max : ℕ) (pcs : List Pc) (i : ℕ) (pc : Pc)
    → get_elem? pcs i ≡ some pc
    → All (PcOk max) pcs
    → PcOk max pc
All-get max [] i pc e h = cc
All-get max (x ∷ pcs) zero pc e h = let same : x ≡ pc = cc in rw same at h.0
All-get max (x ∷ pcs) (suc i) pc e h = All-get max pcs i pc e h.1

All-set :
    (max : ℕ) (pcs : List Pc) (i : ℕ) (pc : Pc)
    → PcOk max pc
    → All (PcOk max) pcs
    → All (PcOk max) (set pcs i pc)
All-set max [] i pc p h = h
All-set max (x ∷ pcs) zero pc p h = (p, h.1)
All-set max (x ∷ pcs) (suc i) pc p h = (h.0, All-set max pcs i pc p h.1)

-- One instruction of a thread that holds `holds pc` of the `n - lost` units in use.
instruction-keeps :
    (max n lost : ℕ) (pc : Pc)
    → holds pc + lost ≤ n
    → n ≤ max
    → PcOk max pc
    → let (n', lost', pc') = instruction max n lost pc in
      (n' + lost + holds pc ≡ n + lost' + holds pc') × (n' ≤ max) × PcOk max pc'
unfolding instruction
instruction-keeps max n lost idle h k p = (omega arith, k, tt)
instruction-keeps max n lost (acquire_load zero) h k p = (omega arith, k, tt)
instruction-keeps max n lost (acquire_load (suc left)) h k p = ground arith
instruction-keeps max n lost (acquire_exchange left current) h k p = ground arith
instruction-keeps max n lost working h k p = (omega arith, k, tt)
instruction-keeps max n lost (complete_load zero) h k p = (omega arith, k, tt)
instruction-keeps max n lost (complete_load (suc left)) h k p = ground arith
instruction-keeps max n lost (complete_exchange left current) h k p = ground arith

move-Inv : (s : Shared) (i : ℕ) → Inv s → Inv (move s i)
unfolding move
move-Inv s i v = elim (Option-cases (get_elem? s.threads i)) [
  | inl outside ↦ rw (outside, move) v
  | inr (pc, found) ↦
      let r = instruction s.max_in_flight s.in_flight s.lost pc in
      let (count, limit, good) =
        instruction-keeps s.max_in_flight s.in_flight s.lost pc
          (omega (arith, v, holds-le-holders s.threads i pc found)) v.limited
          (All-get s.max_in_flight s.threads i pc found v.pcs_ok) in
      let moved : Inv (record s { in_flight = r.0; lost = r.1; threads = set s.threads i r.2 }) =
        record {
          counted = omega (arith, v, count, holders-set s.threads i pc r.2 found);
          limited = limit;
          pcs_ok = All-set s.max_in_flight s.threads i r.2 good v.pcs_ok;
        } in
      rw (found, move) moved
]

run-Inv : (schedule : List ℕ) (s : Shared) → Inv s → Inv (run s schedule)
unfolding run
run-Inv [] s v = v
run-Inv (i ∷ schedule) s v = run-Inv schedule (move s i) (move-Inv s i v)

start-Inv : (max count : ℕ) → Inv (start max count)
unfolding start
start-Inv max count = record {
  counted = none_hold count;
  limited = omega arith;
  pcs_ok = all_ok count;
}
  where
    none_hold : (k : ℕ) → 0 ≡ holders (replicate k idle) + 0
    none_hold zero = refl
    none_hold (suc k) = omega (arith, none_hold k)

    all_ok : (k : ℕ) → All (PcOk max) (replicate k idle)
    all_ok zero = tt
    all_ok (suc k) = (tt, all_ok k)

at_work-le-holders : (pcs : List Pc) → at_work pcs ≤ holders pcs
at_work-le-holders [] = omega arith
at_work-le-holders (idle ∷ pcs) = omega (arith, at_work-le-holders pcs)
at_work-le-holders (_ ∷ pcs) = omega (arith, at_work-le-holders pcs)

max-run : (schedule : List ℕ) (s : Shared) → (run s schedule).max_in_flight ≡ s.max_in_flight
unfolding run
max-run [] s = refl
max-run (i ∷ schedule) s = max-run schedule (move s i) ∙ max-move s i
  where
    max-move : (s : Shared) (i : ℕ) → (move s i).max_in_flight ≡ s.max_in_flight
    max-move s i = elim (Option-cases (get_elem? s.threads i)) [
      | inl outside ↦ rw (outside, move) refl
      | inr (pc, found) ↦ rw (found, move) refl
    ]

-- The limit on concurrent operations holds at every interleaving: however `count` threads that
-- acquire and complete are scheduled, at most `max` of them are at work at once, the counter
-- stays within `max`, and it is the number of threads that hold a unit, plus the units that a
-- `complete` left behind when it gave up.
pub run-at_work :
    (max count : ℕ) (schedule : List ℕ)
    → let s = run (start max count) schedule in
      (at_work s.threads ≤ max) × (s.in_flight ≤ max) × (s.in_flight ≡ holders s.threads + s.lost)
run-at_work max count schedule =
    let s = run (start max count) schedule in
    let v = run-Inv schedule (start max count) (start-Inv max count) in
    let same : s.max_in_flight ≡ max = max-run schedule (start max count) ∙ unfold start in refl in
    (omega (arith, v, at_work-le-holders s.threads, same), omega (arith, v, same), v.counted)
