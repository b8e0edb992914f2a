-- ===== src/Reload/Paths.antt =====
-- When two values have no path at which they differ (workers/config_loader.rs).
use roboplc_middle.Prelude.{
  ℕ, zero, suc, ◌≤◌, ◌≡◌, ◌↔◌, refl, sym, ◌∙◌, String, List, [], ◌∷◌, ◌++◌, Option, none, some,
  arith, All, if◌then◌else◌,
}
use roboplc_middle.Prelude.Maps.{string_key}
use roboplc_middle.Reload.{
  Value, array, object, Members, equal, get, with_keys, key_path, entry_paths, map_paths,
  diff_paths, depth, collect_diff_paths,
}
use roboplc_middle.Reload.Keys.{get-depth, depth-positive}
use roboplc_middle.Reload.Equal.{
  Same, same_value, same_maps, same_arrays, SameAt, absent, present, same_at, maps_of_keys,
  keys_of_maps, equal-Same, Same-equal,
}

append-none : (xs ys : List String) → xs ++ ys ≡ [] → (xs ≡ []) × (ys ≡ [])
append-none [] ys e = (refl, e)
append-none (x ∷ xs) ys e = cc

map_paths-none :
    (inner : String → Value → Value → List String) (prefix : String) (a b : Members)
    (keys : List String)
    → map_paths inner prefix a b keys ≡ []
    → All (λ k. entry_paths inner (key_path prefix k) (get k a) (get k b) ≡ []) keys
unfolding map_paths
map_paths-none inner prefix a b [] e = tt
map_paths-none inner prefix a b (k ∷ ks) e =
    let (here, rest) = append-none _ (map_paths inner prefix a b ks) e in
    (here, map_paths-none inner prefix a b ks rest)

none-map_paths :
    (inner : String → Value → Value → List String) (prefix : String) (a b : Members)
    (keys : List String)
    → All (λ k. entry_paths inner (key_path prefix k) (get k a) (get k b) ≡ []) keys
    → map_paths inner prefix a b keys ≡ []
unfolding map_paths
none-map_paths inner prefix a b [] e = refl
none-map_paths inner prefix a b (k ∷ ks) (here, rest) =
    rw (here, none-map_paths inner prefix a b ks rest) refl

-- Two values are maps, or they are compared.
data Compared : Value → Value → Type 0 where
  maps : (a b : Members) → Compared (object a) (object b)
  others :
      (v w : Value)
      → ((n : ℕ) (prefix : String)
          → diff_paths (suc n) prefix v w ≡ (if equal (depth v) v w then [] else prefix ∷ []))
      → Compared v w

compared : (v w : Value) → Compared v w
unfolding diff_paths
compared (object a) (object b) = maps a b
compared v w = others v w (λ n prefix. refl)

entry-none :
    (inner : String → Value → Value → List String) (p : String) (o o' : Option Value)
    → ((v w : Value) → o ≡ some v → inner p v w ≡ [] → Same v w)
    → entry_paths inner p o o' ≡ []
    → SameAt o o'
unfolding entry_paths
entry-none inner p (some v) (some w) h e = present v w (h v w refl e)
entry-none inner p (some v) none h e = cc
entry-none inner p none (some w) h e = cc
entry-none inner p none none h e = absent

All-map :
    (P Q : String → Type 0) (ks : List String) → ((k : String) → P k → Q k) → All P ks → All Q ks
All-map P Q [] f h = tt
All-map P Q (k ∷ ks) f (p, h) = (f k p, All-map P Q ks f h)

maps-none :
    (inner : String → Value → Value → List String) (prefix : String) (a b : Members)
    → ((k : String) (v w : Value)
        → get k a ≡ some v
        → inner (key_path prefix k) v w ≡ []
        → Same v w)
    → map_paths inner prefix a b (with_keys a (with_keys b [])) ≡ []
    → Same (object a) (object b)
maps-none inner prefix a b f e = maps_of_keys a b (
    All-map _ (λ k. SameAt (get k a) (get k b)) (with_keys a (with_keys b []))
      (λ k. entry-none inner (key_path prefix k) (get k a) (get k b) (f k))
      (map_paths-none inner prefix a b (with_keys a (with_keys b [])) e))

others-none :
    (v w : Value) (prefix : String)
    → (if equal (depth v) v w then [] else prefix ∷ []) ≡ []
    → Same v w
others-none v w prefix e = equal-Same (depth v) v w (ground arith)

compared-none :
    (n : ℕ) (prefix : String) (v w : Value)
    → ((p : String) (x y : Value) → depth x ≤ n → diff_paths n p x y ≡ [] → Same x y)
    → Compared v w
    → depth v ≤ suc n
    → diff_paths (suc n) prefix v w ≡ []
    → Same v w
unfolding diff_paths depth
compared-none n prefix _ _ inner (others v w f) l e = others-none v w prefix (sym (f n prefix) ∙ e)
compared-none n prefix _ _ inner (maps a b) l e =
    maps-none (diff_paths n) prefix a b
      (λ k v w there. inner (key_path prefix k) v w (omega (arith, get-depth k a v there))) e

none-Same :
    (n : ℕ) (prefix : String) (v w : Value) → depth v ≤ n → diff_paths n prefix v w ≡ [] → Same v w
none-Same zero prefix v w l e = absurd (omega (arith, depth-positive v))
none-Same (suc n) prefix v w l e = compared-none n prefix v w (none-Same n) (compared v w) l e

entry-Same :
    (inner : String → Value → Value → List String) (p : String) (o o' : Option Value)
    → ((v w : Value) → Same v w → inner p v w ≡ [])
    → SameAt o o'
    → ¬ ((o ≡ none) × (o' ≡ none))
    → entry_paths inner p o o' ≡ []
unfolding entry_paths
entry-Same inner p _ _ f absent h = absurd (h (refl, refl))
entry-Same inner p _ _ f (present v w s) h = f v w s

maps-Same :
    (inner : String → Value → Value → List String) (prefix : String) (a b : Members)
    → ((p : String) (v w : Value) → Same v w → inner p v w ≡ [])
    → ((k : String) → SameAt (get k a) (get k b))
    → map_paths inner prefix a b (with_keys a (with_keys b [])) ≡ []
maps-Same inner prefix a b f same =
    let P : String → Type 0 = λ k. entry_paths inner (key_path prefix k) (get k a) (get k b) ≡ [] in
    let at : (k : String) → ¬ ((get k a ≡ none) × (get k b ≡ none)) → P k = λ k.
      entry-Same inner (key_path prefix k) (get k a) (get k b) (f (key_path prefix k)) (same k) in
    none-map_paths inner prefix a b (with_keys a (with_keys b [])) (keys_of_maps P a b at)

compared-Same :
    (v w : Value) (prefix : String)
    → Same v w
    → (if equal (depth v) v w then [] else prefix ∷ []) ≡ []
compared-Same v w prefix s = rw (Same-equal (depth v) v w (omega arith) s) refl

value-none :
    (n : ℕ) (prefix : String) (v : Value)
    → ((p : String) (x y : Value) → Same x y → diff_paths n p x y ≡ [])
    → diff_paths (suc n) prefix v v ≡ []
unfolding diff_paths
value-none n prefix (object a) inner =
    maps-Same (diff_paths n) prefix a a inner (λ k. same_at (get k a))
value-none n prefix v inner = compared-Same v v prefix (same_value v)

Same-none : (n : ℕ) (prefix : String) (v w : Value) → Same v w → diff_paths n prefix v w ≡ []
unfolding diff_paths
Same-none zero prefix v w s = refl
Same-none (suc n) prefix _ _ (same_value v) = value-none n prefix v (Same-none n)
Same-none (suc n) prefix _ _ (same_maps a b same) =
    maps-Same (diff_paths n) prefix a b (Same-none n) same
Same-none (suc n) prefix _ _ (same_arrays vs ws all) =
    compared-Same (array vs) (array ws) prefix (same_arrays vs ws all)

-- No path is reported exactly if the values are the same but for the order in which maps are
-- written, at any depth, maps in arrays included.
pub collect_diff_paths-Same :
    (prefix : String) (old new : Value) → (collect_diff_paths prefix old new ≡ []) ↔ Same old new
unfolding collect_diff_paths
collect_diff_paths-Same prefix old new =
    (none-Same (depth old) prefix old new (omega arith), Same-none (depth old) prefix old new)
