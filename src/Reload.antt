-- ===== src/Reload.antt =====
-- The reload of the configuration (workers/config_loader.rs): the paths at which two JSON values
-- differ, and what the worker does with an event of the file.
pub mod Keys
pub mod Equal
pub mod Paths
pub mod Loader
mod Tests
use Prim.Native.Nat.{Ordering}
use Prim.Native.String.{◌++◌ as str_append, compare}
use mathlib.Core.Logic.{ite}
use native.Mathlib.Decide.{ℕ_discrete}
use roboplc_middle.Prelude.{
  ℕ, zero, suc, max, ◌≡◌, Bool, true, false, ◌&&◌, String, List, [], ◌∷◌, ◌++◌, Option, none, some,
  if◌then◌else◌, inl, inr, arith, Bool-cases,
}
use roboplc_middle.Prelude.Maps.{string_key}

-- The cases of `serde_json::Value`, where a number is its digits.
mutual
  pub data Value : Type 0 where
    null : Value
    bool : Bool → Value
    number : String → Value
    string : String → Value
    array : Elements → Value
    object : Members → Value

  pub data Elements : Type 0 where
    no_more : Elements
    element : Value → Elements → Elements

  -- The entries of a map.
  pub data Members : Type 0 where
    done : Members
    member : String → Value → Members → Members

text_discrete : Discrete String
text_discrete s t = elim (Bool-cases (string_key.beq s t)) [
  | inl e ↦ yes ((string_key.beq_iff s t).0 e)
  | inr e ↦ no (λ same. ground (arith, (string_key.beq_iff s t).1 same, e))
]

-- `Map::get`
unfoldable pub get : String → Members → Option Value
get k done = none
get k (member j v m) = if string_key.beq j k then some v else get k m

-- `<` of texts
abbrev pub before : Ordering → Bool
before Ordering.lt = true
before Ordering.eq = false
before Ordering.gt = false

-- `BTreeSet::insert`
unfoldable pub insert_key : String → List String → List String
insert_key k [] = k ∷ []
insert_key k (j ∷ js) =
    let rest = insert_key k js in
    if string_key.beq k j then j ∷ js else if before (compare k j) then k ∷ j ∷ js else j ∷ rest

-- The keys of a map, put into an ordered set of keys.
unfoldable pub with_keys : Members → List String → List String
unfolding insert_key
with_keys done ks = ks
with_keys (member k v m) ks = insert_key k (with_keys m ks)

-- `==` of values, with a bound on their depth: maps are equal if each key of one is in both, with
-- equal values; arrays are equal element by element.
pub Value-discrete : Discrete Value
Value-discrete = hlevel text_discrete

unfoldable pub entry_equal : (Value → Value → Bool) → Option Value → Option Value → Bool
entry_equal inner (some v) (some w) = inner v w
entry_equal inner _ _ = false

unfoldable pub map_equal : (Value → Value → Bool) → Members → Members → List String → Bool
unfolding entry_equal
map_equal inner a b [] = true
map_equal inner a b (key ∷ keys) =
    entry_equal inner (get key a) (get key b) && map_equal inner a b keys

unfoldable pub elements_equal : (Value → Value → Bool) → Elements → Elements → Bool
elements_equal inner no_more no_more = true
elements_equal inner (element v vs) (element w ws) = inner v w && elements_equal inner vs ws
elements_equal inner _ _ = false

unfoldable pub equal : ℕ → Value → Value → Bool
unfolding map_equal elements_equal with_keys
equal zero v w = false
equal (suc n) (object a) (object b) = map_equal (equal n) a b (with_keys a (with_keys b []))
equal (suc n) (array vs) (array ws) = elements_equal (equal n) vs ws
equal (suc n) v w = ite (Value-discrete v w) true false

unfoldable mutual
  pub depth : Value → ℕ
  depth (object m) = suc (depth_members m)
  depth (array vs) = suc (depth_elements vs)
  depth _ = 1

  pub depth_elements : Elements → ℕ
  depth_elements no_more = 0
  depth_elements (element v vs) = max (depth v) (depth_elements vs)

  pub depth_members : Members → ℕ
  depth_members done = 0
  depth_members (member k v m) = max (depth v) (depth_members m)

abbrev pub key_path : String → String → String
key_path prefix key =
    if string_key.beq prefix "" then key else str_append prefix (str_append "." key)

unfoldable pub entry_paths :
    (String → Value → Value → List String) → String → Option Value → Option Value → List String
entry_paths inner path (some old) (some new) = inner path old new
entry_paths inner path _ _ = path ∷ []

-- The loop over the keys.
unfoldable pub map_paths :
    (String → Value → Value → List String) → String → Members → Members → List String → List String
unfolding entry_paths
map_paths inner prefix old new [] = []
map_paths inner prefix old new (key ∷ keys) =
    entry_paths inner (key_path prefix key) (get key old) (get key new)
    ++ map_paths inner prefix old new keys

-- With a bound on the depth of maps in maps. The branches of arrays and of other values are alike.
unfoldable pub diff_paths : ℕ → String → Value → Value → List String
unfolding map_paths with_keys equal depth
diff_paths zero prefix old new = []
diff_paths (suc n) prefix (object old) (object new) =
    map_paths (diff_paths n) prefix old new (with_keys old (with_keys new []))
diff_paths (suc n) prefix old new = if equal (depth old) old new then [] else prefix ∷ []

-- What the call adds to `out`.
unfoldable pub collect_diff_paths : String → Value → Value → List String
unfolding diff_paths depth
collect_diff_paths prefix old new = diff_paths (depth old) prefix old new
