-- ===== src/Prelude/Lists.antt =====
-- Lists measured and indexed by native numbers, under the library's names.
use Prim.Native.Nat.{ℕ, zero, suc, ◌+◌, min}
use mathlib.Core.Path.{◌≡◌, refl, ap}
use mathlib.Core.Logic.{◌≢◌}
use mathlib.Core.List.{List, [], ◌∷◌, ◌++◌, map, reverse}
use mathlib.Core.List.{reverse-append}
use mathlib.Core.Option.{Option, none, some}
use native.Mathlib.Omega.{arith}

module _ {ℓ} {A : Type ℓ} where
  abbrev pub length : List A → ℕ
  length [] = 0
  length (x ∷ xs) = suc (length xs)

  abbrev pub get_elem? : List A → ℕ → Option A
  get_elem? [] i = none
  get_elem? (x ∷ xs) zero = some x
  get_elem? (x ∷ xs) (suc i) = get_elem? xs i

  abbrev pub get_or : List A → ℕ → A → A
  get_or [] i d = d
  get_or (x ∷ xs) zero d = x
  get_or (x ∷ xs) (suc i) d = get_or xs i d

  -- A write out of bounds changes nothing.
  abbrev pub set : List A → ℕ → A → List A
  set [] i v = []
  set (x ∷ xs) zero v = v ∷ xs
  set (x ∷ xs) (suc i) v = x ∷ set xs i v

  abbrev pub take : ℕ → List A → List A
  take zero xs = []
  take (suc n) [] = []
  take (suc n) (x ∷ xs) = x ∷ take n xs

  abbrev pub drop : ℕ → List A → List A
  drop zero xs = xs
  drop (suc n) [] = []
  drop (suc n) (x ∷ xs) = drop n xs

  abbrev pub replicate : ℕ → A → List A
  replicate zero a = []
  replicate (suc n) a = a ∷ replicate n a

  -- `push_back` of a `VecDeque` or a `Vec`.
  abbrev pub push_back : List A → A → List A
  push_back xs x = xs ++ x ∷ []

  -- A predicate on all elements, which computes to a tuple.
  abbrev pub All {κ} : (A → Type κ) → List A → Type κ
  All P [] = Unit {κ}
  All P (x ∷ xs) = P x × All P xs

module _ {ℓ} {A : Type ℓ} where
  pub length-append : (xs ys : List A) → length (xs ++ ys) ≡ length xs + length ys
  length-append [] ys = omega arith
  length-append (x ∷ xs) ys = omega (arith, length-append xs ys)

  pub length-reverse : (xs : List A) → length (reverse xs) ≡ length xs
  length-reverse [] = refl
  length-reverse (x ∷ xs) = omega (
    arith,
    ap length (reverse-append (x ∷ []) xs),
    length-append (reverse xs) (x ∷ []),
    length-reverse xs,
  )

  pub length-set : (xs : List A) (i : ℕ) (v : A) → length (set xs i v) ≡ length xs
  length-set [] i v = refl
  length-set (x ∷ xs) zero v = refl
  length-set (x ∷ xs) (suc i) v = ap suc (length-set xs i v)

  pub length-replicate : (n : ℕ) (a : A) → length (replicate n a) ≡ n
  length-replicate zero a = refl
  length-replicate (suc n) a = ap suc (length-replicate n a)

  pub length-map {κ} : {B : Type κ} (xs : List A) (f : A → B) → length (map f xs) ≡ length xs
  length-map [] f = refl
  length-map (x ∷ xs) f = ap suc (length-map xs f)

  pub length-take : (n : ℕ) (xs : List A) → length (take n xs) ≡ min n (length xs)
  length-take zero xs = omega arith
  length-take (suc n) [] = omega arith
  length-take (suc n) (x ∷ xs) = omega (arith, length-take n xs)

  pub All-append {κ} : (P : A → Type κ) (xs ys : List A) → All P xs → All P ys → All P (xs ++ ys)
  All-append P [] ys hx hy = hy
  All-append P (x ∷ xs) ys hx hy = (hx.0, All-append P xs ys hx.1 hy)

module _ {ℓ κ κ'} {A : Type ℓ} (P : A → Type κ) (Q : A → Type κ') where
  pub All-zip : (xs : List A) → All P xs → All Q xs → All (λ x. P x × Q x) xs
  All-zip [] p q = tt
  All-zip (x ∷ xs) (p, ps) (q, qs) = ((p, q), All-zip xs ps qs)

  pub All-unzip : (xs : List A) → All (λ x. P x × Q x) xs → All P xs × All Q xs
  All-unzip [] h = (tt, tt)
  All-unzip (x ∷ xs) ((p, q), h) = let (ps, qs) = All-unzip xs h in ((p, ps), (q, qs))

  pub All-map : (xs : List A) → ((x : A) → P x → Q x) → All P xs → All Q xs
  All-map [] f h = tt
  All-map (x ∷ xs) f (p, ps) = (f x p, All-map xs f ps)

-- The items have different keys.
abbrev pub DistinctBy {ℓ κ} : {A : Type ℓ} {K : Type κ} → (A → K) → List A → Type κ
DistinctBy key [] = Unit {κ}
DistinctBy key (x ∷ xs) = All (λ y. key x ≢ key y) xs × DistinctBy key xs
