-- ===== src/Latency/LastSamples.antt =====
-- The last samples of a sequence, as the window of latency_monitor.rs takes them.
use roboplc_middle.Prelude.{
  ℕ, zero, suc, ◌+◌, ◌-◌, ◌≤◌, ◌≡◌, refl, sym, ap, ◌∙◌, List, [], ◌∷◌, arith, leb, if◌then◌else◌,
  inl, inr, Bool-cases, length, length-append, drop, push_back,
}
use roboplc_middle.Prelude.Maps.{string_key}
use roboplc_middle.Latency.{latency_window}

-- The last 100 of some samples.
abbrev pub last_window : List ℕ → List ℕ
last_window xs = drop (length xs - latency_window) xs

pub length-drop : (n : ℕ) (xs : List ℕ) → length (drop n xs) ≡ length xs - n
length-drop zero xs = omega arith
length-drop (suc n) [] = omega arith
length-drop (suc n) (x ∷ xs) = omega (arith, length-drop n xs)

drop-push_back :
    (n : ℕ) (xs : List ℕ) (x : ℕ)
    → n ≤ length xs
    → drop n (push_back xs x) ≡ push_back (drop n xs) x
drop-push_back zero xs x h = refl
drop-push_back (suc n) [] x h = absurd (omega arith)
drop-push_back (suc n) (y ∷ ys) x h = drop-push_back n ys x (omega arith)

-- Without the first.
abbrev pub tail : List ℕ → List ℕ
tail [] = []
tail (x ∷ xs) = xs

tail-drop : (n : ℕ) (xs : List ℕ) → tail (drop n xs) ≡ drop (suc n) xs
tail-drop zero [] = refl
tail-drop zero (x ∷ xs) = refl
tail-drop (suc n) [] = refl
tail-drop (suc n) (x ∷ xs) = tail-drop n xs

-- One more sample, as the window takes it.
pub last_window-push_back :
    (xs : List ℕ) (x : ℕ)
    → last_window (push_back xs x)
      ≡ push_back
          (if leb latency_window (length (last_window xs))
            then tail (last_window xs)
            else last_window xs)
          x
last_window-push_back xs x =
    let n : length (push_back xs x) ≡ length xs + 1 = omega (arith, length-append xs (x ∷ [])) in
    let m = length-drop (length xs - 100) xs in
    elim (Bool-cases (leb 100 (length (last_window xs)))) [
      | inl full ↦
          let more : length xs + 1 - 100 ≡ suc (length xs - 100) = ground arith in
          rw (full, n, more)
            (drop-push_back (suc (length xs - 100)) xs x (ground arith)
              ∙ ap (λ (ys : List ℕ). push_back ys x) (sym (tail-drop (length xs - 100) xs)))
      | inr part ↦
          let few : length xs - 100 ≡ 0 = ground arith in
          let still : length xs + 1 - 100 ≡ 0 = ground arith in rw (part, n, still, few) refl
    ]
