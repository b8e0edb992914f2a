-- ===== src/Prelude/Sample.antt =====
-- A value of each interface, for tests: it shows that the interface's laws can hold together.
use Prim.Native.Nat.{ℕ, ◌+◌, ◌-◌, ◌%◌, ◌^◌, ◌≤◌, ◌<◌}
use Prim.Native.String.{String}
use mathlib.Core.Path.{◌≡◌, refl, ap}
use mathlib.Core.Bool.{Bool, true, false}
use mathlib.Core.Option.{Option, none, some}
use mathlib.Core.List.{List, [], ◌∷◌}
use mathlib.Core.HLevel.{Σ_prop_path}
use native.Mathlib.Bridge.{le_prop}
use native.Mathlib.Omega.{arith}
use roboplc_middle.Prelude.Tests.{◌==◌, ltb, if◌then◌else◌}
use roboplc_middle.Prelude.Int.{ℤ, pos, negsuc, pos_part, neg_part}
use roboplc_middle.Prelude.Float.{Float, is_nan_f32}
use roboplc_middle.Prelude.Json.{Json, lookup}

-- 64-bit patterns: integers below 2 ^ 62, then those of an `f32`, then negative integers.
abbrev pub Pattern : Type 0
Pattern = (n : ℕ) × (n < 2 ^ 64)

pub wrap_lt : (n : ℕ) → n % 2 ^ 64 < 2 ^ 64
wrap_lt n = omega arith

abbrev pub wrap : ℕ → Pattern
wrap n = (n % 2 ^ 64, wrap_lt n)

abbrev pub pattern_of_int : ℤ → Pattern
pattern_of_int (pos n) = wrap n
pattern_of_int (negsuc n) = wrap (2 ^ 63 + n)

abbrev pub pattern_trunc : Pattern → ℤ
pattern_trunc (n, h) =
    if ltb n (2 ^ 62) then pos n else if ltb n (2 ^ 63) then pos 0 else negsuc (n - 2 ^ 63)

pub trunc_law :
    (z : ℤ) → pos_part z ≤ 2 ^ 32 → neg_part z ≤ 2 ^ 32 → pattern_trunc (pattern_of_int z) ≡ z
trunc_law (pos n) h k = ground arith
trunc_law (negsuc n) h k = ground arith

pub bits_law : (w : ℕ) → w < 2 ^ 64 → (wrap w).0 ≡ w
bits_law w h = omega arith

pub pattern_law : (v : Pattern) → wrap v.0 ≡ v
pattern_law (n, h) = Σ_prop_path (λ m. le_prop) (bits_law n h)

pub f32_law : (w : ℕ) → w < 2 ^ 32 → is_nan_f32 w ≡ false → (wrap (2 ^ 62 + w)).0 % 2 ^ 32 ≡ w
f32_law w h e = omega arith

pub f32_lt : (v : Pattern) → v.0 % 2 ^ 32 < 2 ^ 32
f32_lt v = omega arith

pub bits_lt : (v : Pattern) → v.0 < 2 ^ 64
bits_lt v = v.1

abbrev pub sample_float : Float
sample_float = record {
  F64 = Pattern;
  of_int = pattern_of_int;
  trunc = pattern_trunc;
  of_bits = wrap;
  to_bits = λ v. v.0;
  of_f32 = λ w. wrap (2 ^ 62 + w);
  to_f32 = λ v. v.0 % 2 ^ 32;
  is_nonzero = λ v. if v.0 == 0 then false else true;
  trunc-of_int = trunc_law;
  to_bits-of_bits = bits_law;
  of_bits-to_bits = pattern_law;
  to_bits_lt = bits_lt;
  to_f32-of_f32 = f32_law;
  to_f32_lt = f32_lt;
  is_nonzero_zero = refl;
  is_nonzero_one = refl;
}

-- JSON values.
mutual
  pub data Tree : Type 0 where
    null : Tree
    flag : Bool → Tree
    num : ℕ → Tree
    float : Pattern → Tree
    str : String → Tree
    arr : Items → Tree
    obj : Entries → Tree

  pub data Items : Type 0 where
    nil : Items
    cons : Tree → Items → Items

  pub data Entries : Type 0 where
    end : Entries
    entry : String → Tree → Entries → Entries

abbrev pub items : List Tree → Items
items [] = nil
items (v ∷ vs) = cons v (items vs)

abbrev pub list_of : Items → List Tree
list_of nil = []
list_of (cons v vs) = v ∷ list_of vs

abbrev pub entries : List (String × Tree) → Entries
entries [] = end
entries ((k, v) ∷ vs) = entry k v (entries vs)

abbrev pub pairs_of : Entries → List (String × Tree)
pairs_of end = []
pairs_of (entry k v vs) = (k, v) ∷ pairs_of vs

list_of-items : (vs : List Tree) → list_of (items vs) ≡ vs
list_of-items [] = refl
list_of-items (v ∷ vs) = ap (λ (r : List Tree). v ∷ r) (list_of-items vs)

pairs_of-entries : (vs : List (String × Tree)) → pairs_of (entries vs) ≡ vs
pairs_of-entries [] = refl
pairs_of-entries ((k, v) ∷ vs) = ap (λ (r : List (String × Tree)). (k, v) ∷ r) (pairs_of-entries vs)

abbrev pub tree_f64 : Tree → Option Pattern
tree_f64 (num n) = some (wrap n)
tree_f64 (float v) = some v
tree_f64 _ = none

abbrev pub tree_u64 : Tree → Option ℕ
tree_u64 (num n) = some n
tree_u64 _ = none

abbrev pub tree_str : Tree → Option String
tree_str (str s) = some s
tree_str _ = none

abbrev pub tree_array : Tree → Option (List Tree)
tree_array (arr vs) = some (list_of vs)
tree_array _ = none

abbrev pub tree_object : Tree → Option (List (String × Tree))
tree_object (obj vs) = some (pairs_of vs)
tree_object _ = none

abbrev pub tree_get : Tree → String → Option Tree
tree_get (obj vs) k = lookup k (pairs_of vs)
tree_get _ k = none

pub u64_law : (n : ℕ) → n < 2 ^ 64 → tree_u64 (num n) ≡ some n
u64_law n h = refl

pub array_law : (vs : List Tree) → tree_array (arr (items vs)) ≡ some vs
array_law vs = ap {B = Option (List Tree)} some (list_of-items vs)

pub get_law : (k : String) (vs : List (String × Tree)) → tree_get (obj (entries vs)) k ≡ lookup k vs
get_law k vs = ap (λ (r : List (String × Tree)). lookup k r) (pairs_of-entries vs)

abbrev pub sample_json : Json Pattern
sample_json = record {
  Value = Tree;
  as_f64 = tree_f64;
  as_u64 = tree_u64;
  as_str = tree_str;
  as_array = tree_array;
  as_object = tree_object;
  get = tree_get;
  null = null;
  of_u64 = num;
  of_f64 = float;
  of_str = str;
  of_bool = flag;
  array = λ vs. arr (items vs);
  object = λ vs. obj (entries vs);
  as_u64-of_u64 = u64_law;
  as_array-array = array_law;
  get-object = get_law;
}
