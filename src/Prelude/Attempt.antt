-- ===== src/Prelude/Attempt.antt =====
-- The outcome of a Rust function that returns an `Option` and may panic.
use mathlib.Core.Path.{◌≡◌, refl}
use mathlib.Core.Logic.{◌≢◌, ◌⊎◌, inl, inr}
use mathlib.Core.Option.{Option, none, some}

pub data Attempt {ℓ} (A : Type ℓ) : Type ℓ where
  done : A → Attempt A
  nothing : Attempt A
  panicked : Attempt A

abbrev pub lift {ℓ} : {A : Type ℓ} → Option A → Attempt A
lift none = nothing
lift (some a) = done a

infixl 5 ◌>>=◌
abbrev pub ◌>>=◌ {ℓ κ} : {A : Type ℓ} {B : Type κ} → Attempt A → (A → Attempt B) → Attempt B
done a >>= f = f a
nothing >>= f = nothing
panicked >>= f = panicked

-- Inversion of a successful bind, for proofs where the parts stay shut.
pub >>=-eq-done {ℓ κ} :
    {A : Type ℓ} {B : Type κ} (m : Attempt A) (f : A → Attempt B) {b : B}
    → (m >>= f) ≡ done b
    → (a : A) × (m ≡ done a) × (f a ≡ done b)
>>=-eq-done (done a) f h = (a, refl, h)
>>=-eq-done nothing f h = cc
>>=-eq-done panicked f h = cc

pub lift-eq-done {ℓ} : {A : Type ℓ} (o : Option A) {a : A} → lift o ≡ done a → o ≡ some a
lift-eq-done none h = cc
lift-eq-done (some b) h = cc

pub Attempt-cases {ℓ} :
    {A : Type ℓ} (m : Attempt A) → ((a : A) × (m ≡ done a)) ⊎ (m ≡ nothing) ⊎ (m ≡ panicked)
Attempt-cases (done a) = inl (a, refl)
Attempt-cases nothing = inr (inl refl)
Attempt-cases panicked = inr (inr refl)

-- A bind panics only if a part of it does.
pub >>=-ne-panicked {ℓ κ} :
    {A : Type ℓ} {B : Type κ} (m : Attempt A) (f : A → Attempt B)
    → m ≢ panicked
    → ((a : A) → m ≡ done a → f a ≢ panicked)
    → (m >>= f) ≢ panicked
>>=-ne-panicked (done a) f h k = k a refl
>>=-ne-panicked nothing f h k = λ e. cc
>>=-ne-panicked panicked f h k = λ e. h refl

pub lift-ne-panicked {ℓ} : {A : Type ℓ} (o : Option A) → lift o ≢ panicked
lift-ne-panicked none = λ e. cc
lift-ne-panicked (some a) = λ e. cc

pub done-ne-panicked {ℓ} : {A : Type ℓ} (a : A) → done a ≢ panicked
done-ne-panicked a = λ e. cc
