-- ===== src/Prelude/Maps.antt =====
-- Hash maps (`HashMap`, `DashMap`) as association lists. A walk goes through the list; where an
-- insertion puts a new key is a choice of the model, on which no statement depends.
use Prim.Native.Nat.{ℕ, suc, ◌≤◌}
use Prim.Native.String.{String}
use text.Mathlib.Text.{◌==◌ as str_eq}
use text.Mathlib.TextEquality.{eq_iff}
use mathlib.Core.Path.{◌≡◌, refl, sym, ap}
use mathlib.Core.Logic.{◌≢◌, ◌↔◌, inl, inr}
use mathlib.Core.Bool.{Bool, true, false, ◌&&◌}
use mathlib.Core.Option.{Option, none, some}
use mathlib.Core.List.{List, [], ◌∷◌, ◌++◌}
use native.Mathlib.Omega.{arith}
use roboplc_middle.Prelude.Tests.{◌==◌, if◌then◌else◌, ==_iff, Bool-cases, if-both}
use roboplc_middle.Prelude.Lists.{length, All, DistinctBy}

-- A type of keys: its `==`.
pub record Key {ℓ} (K : Type ℓ) : Type ℓ where
  pub beq : K → K → Bool
  pub beq_iff : (a b : K) → (beq a b ≡ true) ↔ (a ≡ b)

abbrev nat_beq : ℕ → ℕ → Bool
nat_beq a b = a == b

instance abbrev pub nat_key : Key ℕ
nat_key = record { beq = nat_beq; beq_iff = ==_iff }

instance abbrev pub string_key : Key String
string_key = record { beq = str_eq; beq_iff = eq_iff }

-- `==` of texts by their code points.
abbrev pub codes_eq : List ℕ → List ℕ → Bool
codes_eq [] [] = true
codes_eq (x ∷ xs) (y ∷ ys) = (x == y) && codes_eq xs ys
codes_eq _ _ = false

pub codes_eq_iff : (xs ys : List ℕ) → (codes_eq xs ys ≡ true) ↔ (xs ≡ ys)
codes_eq_iff [] [] = ground arith
codes_eq_iff [] (y ∷ ys) = ground arith
codes_eq_iff (x ∷ xs) [] = ground arith
codes_eq_iff (x ∷ xs) (y ∷ ys) = ground (arith, codes_eq_iff xs ys)

instance abbrev pub codes_key : Key (List ℕ)
codes_key = record { beq = codes_eq; beq_iff = codes_eq_iff }

module _ {ℓ κ} {K : Type ℓ} {V : Type κ} ⦃key : Key K⦄ where
  unfoldable pub find : K → List (K × V) → Option V
  find k [] = none
  find k ((j, v) ∷ m) = if key.beq j k then some v else find k m

  unfoldable pub insert : K → V → List (K × V) → List (K × V)
  insert k v [] = (k, v) ∷ []
  insert k v ((j, w) ∷ m) = if key.beq j k then (k, v) ∷ m else (j, w) ∷ insert k v m

  unfoldable pub remove : K → List (K × V) → List (K × V)
  remove k [] = []
  remove k ((j, w) ∷ m) = let rest = remove k m in if key.beq j k then rest else (j, w) ∷ rest

  -- The keys of a map are different.
  abbrev pub IsMap : List (K × V) → Type ℓ
  IsMap m = DistinctBy (λ (e : K × V). e.0) m

module _ {ℓ κ} {K : Type ℓ} {V : Type κ} ⦃key : Key K⦄ where
  pub find-insert :
      (k j : K) (v : V) (m : List (K × V))
      → find j (insert k v m) ≡ (if key.beq k j then some v else find j m)
  unfolding find insert
  find-insert k j v [] = refl
  find-insert k j v ((i, w) ∷ m) =
      ground (arith, key.beq_iff k j, key.beq_iff i k, key.beq_iff i j, find-insert k j v m)

  pub find-remove :
      (k j : K) (m : List (K × V)) → find j (remove k m) ≡ (if key.beq k j then none else find j m)
  unfolding find remove
  find-remove k j [] = ground arith
  find-remove k j ((i, w) ∷ m) =
      ground (arith, key.beq_iff k j, key.beq_iff i k, key.beq_iff i j, find-remove k j m)

  pub find-insert_self : (k : K) (v : V) (m : List (K × V)) → find k (insert k v m) ≡ some v
  find-insert_self k v m = rw (find-insert k k v m, (key.beq_iff k k).1 refl)

  pub All-insert {μ} :
      (P : K × V → Type μ) (k : K) (v : V) (m : List (K × V))
      → P (k, v)
      → All P m
      → All P (insert k v m)
  unfolding insert
  All-insert P k v [] p h = (p, tt)
  All-insert P k v ((j, w) ∷ m) p (q, h) =
      if-both (All P) (key.beq j k) (p, h) (q, All-insert P k v m p h)

  pub All-remove {μ} :
      (P : K × V → Type μ) (k : K) (m : List (K × V)) → All P m → All P (remove k m)
  unfolding remove
  All-remove P k [] h = tt
  All-remove P k ((j, w) ∷ m) (q, h) =
      if-both (All P) (key.beq j k) (All-remove P k m h) (q, All-remove P k m h)

  pub insert-IsMap : (k : K) (v : V) (m : List (K × V)) → IsMap m → IsMap (insert k v m)
  unfolding insert
  insert-IsMap k v [] h = (tt, tt)
  insert-IsMap k v ((j, w) ∷ m) (a, h) = elim (Bool-cases (key.beq j k)) [
    | inl e ↦ rw e (let same = (key.beq_iff j k).0 e in (rw (sym same) a, h))
    | inr e ↦ rw e (
      All-insert (λ y. j ≢ y.0) k v m (λ same. cc ((key.beq_iff j k).1 same)) a,
      insert-IsMap k v m h,
    )
  ]

  pub remove-IsMap : (k : K) (m : List (K × V)) → IsMap m → IsMap (remove k m)
  unfolding remove
  remove-IsMap k [] h = tt
  remove-IsMap k ((j, w) ∷ m) (a, h) =
      if-both IsMap (key.beq j k) (remove-IsMap k m h)
        (All-remove (λ y. j ≢ y.0) k m a, remove-IsMap k m h)

  pub length-remove : (k : K) (m : List (K × V)) → length (remove k m) ≤ length m
  unfolding remove
  length-remove k [] = omega arith
  length-remove k ((j, w) ∷ m) = ground (arith, length-remove k m)

  pub length-insert : (k : K) (v : V) (m : List (K × V)) → length (insert k v m) ≤ suc (length m)
  unfolding insert
  length-insert k v [] = omega arith
  length-insert k v ((j, w) ∷ m) = ground (arith, length-insert k v m)

  -- A key that is not there is put at the end.
  pub insert_fresh :
      (k : K) (v : V) (m : List (K × V)) → All (λ y. k ≢ y.0) m → insert k v m ≡ m ++ (k, v) ∷ []
  unfolding insert
  insert_fresh k v [] h = refl
  insert_fresh k v ((j, w) ∷ m) (n, h) = elim (Bool-cases (key.beq j k)) [
    | inl e ↦ absurd (n (sym ((key.beq_iff j k).0 e)))
    | inr e ↦ rw e (ap (◌∷◌ (j, w)) (insert_fresh k v m h))
  ]
