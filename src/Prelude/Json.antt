-- ===== src/Prelude/Json.antt =====
-- serde_json as an interface: the values, the accessors and the constructors that the program
-- uses. An object's entries come in the order in which its map is walked.
use Prim.Native.Nat.{ℕ, ◌^◌, ◌<◌}
use Prim.Native.String.{String}
use text.Mathlib.Text.{◌==◌ as str_eq}
use mathlib.Core.Path.{◌≡◌}
use mathlib.Core.Bool.{Bool}
use mathlib.Core.Option.{Option, none, some}
use mathlib.Core.List.{List, [], ◌∷◌}
use roboplc_middle.Prelude.Tests.{if◌then◌else◌}

-- The first entry under a key.
unfoldable pub lookup {ℓ} : {A : Type ℓ} → String → List (String × A) → Option A
lookup k [] = none
lookup k ((j, v) ∷ rest) = if str_eq j k then some v else lookup k rest

pub record Json (F64 : Type 0) : Type 1 where
  pub Value : Type 0
  pub as_f64 : Value → Option F64
  pub as_u64 : Value → Option ℕ
  pub as_str : Value → Option String
  pub as_array : Value → Option (List Value)
  pub as_object : Value → Option (List (String × Value))
  pub get : Value → String → Option Value
  -- `Value::Null` and the literals of the `json!` macro
  pub null : Value
  pub of_u64 : ℕ → Value
  pub of_f64 : F64 → Value
  pub of_str : String → Value
  pub of_bool : Bool → Value
  pub array : List Value → Value
  pub object : List (String × Value) → Value
  pub as_u64-of_u64 : (n : ℕ) → n < 2 ^ 64 → as_u64 (of_u64 n) ≡ some n
  pub as_array-array : (vs : List Value) → as_array (array vs) ≡ some vs
  pub get-object : (k : String) (vs : List (String × Value)) → get (object vs) k ≡ lookup k vs
