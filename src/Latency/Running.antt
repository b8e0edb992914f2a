-- ===== src/Latency/Running.antt =====
-- The statistics of a device by the history of its latencies (workers/latency_monitor.rs).
use mathlib.Core.List.{append_assoc, append-nil}
use roboplc_middle.Prelude.{
  ℕ, zero, Bool, suc, ◌-◌, ◌<◌, ◌≡◌, refl, sym, ap, ◌∙◌, true, false, List, [], ◌∷◌, ◌++◌, arith,
  leb, if◌then◌else◌, inl, inr, Bool-cases, length, drop, push_back, get_or,
}
use roboplc_middle.Latency.LastSamples.{length-drop, last_window-push_back, tail, last_window}
use roboplc_middle.Latency.{
  Arith, Stats, latency_window, remove_sample_welford, drop_oldest, append_sample, add_sample,
}

module _ (ar : Arith) where
  open ar use {F64, of_u64, add, sub, mul, div, le}

  -- The mean, the number and the sum of squared distances from the mean.
  abbrev pub Moments : Type 0
  Moments = F64 × F64 × F64

  -- Welford's formulas for one number more and for one less.
  abbrev pub included : F64 → Moments → Moments
  included x (mean, n, m2) =
      let n' = add n (of_u64 1) in
      let mean' = add mean (div (sub x mean) n') in
      (mean', n', add m2 (mul (sub x mean) (sub x mean')))

  abbrev pub excluded : F64 → Moments → Moments
  excluded x (mean, n, m2) =
      let n' = sub n (of_u64 1) in
      let mean' = sub mean (div (sub x mean) n') in
      if le n (of_u64 1)
      then (of_u64 0, of_u64 0, of_u64 0)
      else (mean', n', sub m2 (mul (sub x mean) (sub x mean')))

  -- One latency after others: if there are 100, that of 100 before is excluded, and it is included.
  abbrev pub next : List ℕ → ℕ → Moments → Moments
  next past x m =
      included (of_u64 x) (
        if leb 100 (length past)
        then excluded (of_u64 (get_or past (length past - 100) 0)) m
        else m)

  unfoldable pub running_from : List ℕ → List ℕ → Moments → Moments
  running_from past [] m = m
  running_from past (x ∷ xs) m = running_from (push_back past x) xs (next past x m)

  -- The moments after some latencies.
  unfoldable pub running : List ℕ → Moments
  unfolding running_from
  running xs = running_from [] xs (of_u64 0, of_u64 0, of_u64 0)

  -- The samples and the moments after some latencies.
  unfoldable pub history : List ℕ → Stats ar
  unfolding running
  history xs = record {
    samples = last_window xs;
    mean = (running xs).0;
    count = (running xs).1;
    m2 = (running xs).2;
  }

  running_from-push :
      (past xs : List ℕ) (x : ℕ) (m : Moments)
      → running_from past (push_back xs x) m ≡ next (past ++ xs) x (running_from past xs m)
  unfolding running_from
  running_from-push past [] x m = ap (λ (l : List ℕ). next l x m) (sym (append-nil past))
  running_from-push past (y ∷ xs) x m =
      running_from-push (push_back past y) xs x (next past y m)
      ∙ ap (λ (l : List ℕ). next l x (running_from (push_back past y) xs (next past y m)))
          (append_assoc past (y ∷ []) xs)

  running-push : (xs : List ℕ) (x : ℕ) → running (push_back xs x) ≡ next xs x (running xs)
  unfolding running
  running-push xs x = running_from-push [] xs x (of_u64 0, of_u64 0, of_u64 0)

  drop-get : (n : ℕ) (xs : List ℕ) → n < length xs → drop n xs ≡ get_or xs n 0 ∷ drop (suc n) xs
  drop-get n [] l = absurd (omega arith)
  drop-get zero (x ∷ xs) l = refl
  drop-get (suc n) (x ∷ xs) l = drop-get n xs (omega arith)

  -- Statistics with the given samples and moments.
  abbrev stats : List ℕ → Moments → Stats ar
  stats xs (mean, n, m2) = record { samples = xs; mean = mean; count = n; m2 = m2 }

  drop_oldest-stats :
      (x : ℕ) (xs : List ℕ) (ys : List ℕ) (m : Moments)
      → drop_oldest ar (x ∷ xs) (stats ys m) ≡ stats xs (excluded (of_u64 x) m)
  unfolding drop_oldest remove_sample_welford
  drop_oldest-stats x xs ys (mean, n, m2) = elim (Bool-cases (le n (of_u64 1))) [
    | inl e ↦ rw e refl
    | inr e ↦ rw e refl
  ]

  append-stats :
      (x : ℕ) (xs : List ℕ) (m : Moments)
      → append_sample ar x (stats xs m) ≡ stats (push_back xs x) (included (of_u64 x) m)
  append-stats x xs (mean, n, m2) = refl

  if-true : {A : Type 0} (b : Bool) (x y : A) → b ≡ true → (if b then x else y) ≡ x
  if-true b x y e = rw e refl

  if-false : {A : Type 0} (b : Bool) (x y : A) → b ≡ false → (if b then x else y) ≡ y
  if-false b x y e = rw e refl

  -- What is dropped before a latency is added.
  drop-window :
      (xs ys rest : List ℕ) (o : ℕ) (m : Moments)
      → ys ≡ o ∷ rest
      → drop_oldest ar ys (stats ys m) ≡ stats (tail ys) (excluded (of_u64 o) m)
  drop-window xs ys rest o m e =
      ap (λ (l : List ℕ). drop_oldest ar l (stats ys m)) e
      ∙ drop_oldest-stats o rest ys m
      ∙ ap (λ (l : List ℕ). stats (tail l) (excluded (of_u64 o) m)) (sym e)

  -- The statistics before a latency is added.
  abbrev made_room : List ℕ → Moments → Stats ar
  made_room ys m =
      if leb latency_window (length ys) then drop_oldest ar ys (stats ys m) else stats ys m

  add_sample-room :
      (x : ℕ) (ys : List ℕ) (m : Moments)
      → add_sample ar x (stats ys m) ≡ append_sample ar x (made_room ys m)
  unfolding add_sample
  add_sample-room x ys (mean, n, m2) = refl

  room-full :
      (xs : List ℕ) (m : Moments)
      → leb 100 (length xs) ≡ true
      → made_room (last_window xs) m
        ≡ stats (tail (last_window xs)) (excluded (of_u64 (get_or xs (length xs - 100) 0)) m)
  room-full xs m e =
      let n = length-drop (length xs - 100) xs in
      if-true (leb 100 (length (last_window xs))) _ _ (ground arith)
      ∙ drop-window xs (last_window xs) (drop (suc (length xs - 100)) xs)
          (get_or xs (length xs - 100) 0) m (drop-get (length xs - 100) xs (ground arith))

  -- A latency added to the statistics of a history gives those of the longer one.
  pub add_sample-history :
      (x : ℕ) (xs : List ℕ) → add_sample ar x (history xs) ≡ history (push_back xs x)
  unfolding history
  add_sample-history x xs =
      let m = running xs in
      let n = length-drop (length xs - 100) xs in
      let longer : Path (Stats ar) (stats (last_window (push_back xs x)) (next xs x m))
          (history (push_back xs x)) =
        ap (λ (k : Moments). stats (last_window (push_back xs x)) k) (sym (running-push xs x)) in
      elim (Bool-cases (leb 100 (length xs))) [
        | inl e ↦
            let full : leb 100 (length (last_window xs)) ≡ true = ground arith in
            let same : push_back (tail (last_window xs)) x ≡ last_window (push_back xs x) =
              ap (λ (ys : List ℕ). push_back ys x) (sym (if-true _ _ _ full))
              ∙ sym (last_window-push_back xs x) in
            let old = get_or xs (length xs - 100) 0 in
            let moments : included (of_u64 x) (excluded (of_u64 old) m) ≡ next xs x m =
              ap (included (of_u64 x)) (sym (if-true _ _ _ e)) in
            add_sample-room x (last_window xs) m
            ∙ ap (append_sample ar x) (room-full xs m e)
            ∙ append-stats x (tail (last_window xs)) (excluded (of_u64 old) m)
            ∙ ap (λ (l : List ℕ). stats l (included (of_u64 x) (excluded (of_u64 old) m))) same
            ∙ ap (λ (k : Moments). stats (last_window (push_back xs x)) k) moments
            ∙ longer
        | inr e ↦
            let part : leb 100 (length (last_window xs)) ≡ false = ground arith in
            let same : push_back (last_window xs) x ≡ last_window (push_back xs x) =
              ap (λ (ys : List ℕ). push_back ys x) (sym (if-false _ _ _ part))
              ∙ sym (last_window-push_back xs x) in
            let moments : included (of_u64 x) m ≡ next xs x m =
              ap (included (of_u64 x)) (sym (if-false _ _ _ e)) in
            add_sample-room x (last_window xs) m
            ∙ ap (append_sample ar x) (if-false _ _ _ part)
            ∙ append-stats x (last_window xs) m
            ∙ ap (λ (l : List ℕ). stats l (included (of_u64 x) m)) same
            ∙ ap (λ (k : Moments). stats (last_window (push_back xs x)) k) moments
            ∙ longer
      ]
