-- ===== src/Reload/Equal.antt =====
-- The equality of JSON values (`==` of serde_json, as workers/config_loader.rs uses it).
use mathlib.Core.Logic.{ite}
use mathlib.Core.Path.{subst}
use roboplc_middle.Prelude.{
  ℕ, zero, suc, ◌≤◌, ◌≡◌, refl, sym, ◌∙◌, Bool, true, false, String, List, [], ◌∷◌, Option, none,
  some, arith, inl, inr, All,
}
use roboplc_middle.Reload.{
  Value, array, object, Elements, no_more, element, Members, Value-discrete, get, with_keys,
  entry_equal, map_equal, elements_equal, equal, depth, depth_elements,
}
use roboplc_middle.Reload.Keys.{
  with_keys-kept, with_keys-reaches, with_keys-All, get-depth, depth-positive,
}

-- The same value, but for the order in which maps are written, at any depth.
mutual
  pub data Same : Value → Value → Type 0 where
    same_value : (v : Value) → Same v v
    same_maps :
        (a b : Members) → ((k : String) → SameAt (get k a) (get k b)) → Same (object a) (object b)
    same_arrays : (vs ws : Elements) → SameAll vs ws → Same (array vs) (array ws)

  pub data SameAt : Option Value → Option Value → Type 0 where
    absent : SameAt none none
    present : (v w : Value) → Same v w → SameAt (some v) (some w)

  pub data SameAll : Elements → Elements → Type 0 where
    both_end : SameAll no_more no_more
    both_go_on :
        (v w : Value) (vs ws : Elements)
        → Same v w
        → SameAll vs ws
        → SameAll (element v vs) (element w ws)

pub same_at : (o : Option Value) → SameAt o o
same_at none = absent
same_at (some v) = present v v (same_value v)

same_all : (vs : Elements) → SameAll vs vs
same_all no_more = both_end
same_all (element v vs) = both_go_on v v vs vs (same_value v) (same_all vs)

-- A key that no map has.
neither : (o o' : Option Value) → o ≡ none → o' ≡ none → SameAt o o'
neither _ _ e e' = rw (e, e') absent

-- Maps are the same if they agree at the keys that one of them has, and agree at those alone.
pub maps_of_keys :
    (a b : Members)
    → All (λ k. SameAt (get k a) (get k b)) (with_keys a (with_keys b []))
    → Same (object a) (object b)
maps_of_keys a b all =
    let P : String → Type 0 = λ k. SameAt (get k a) (get k b) in
    same_maps a b (λ k. elim (with_keys-reaches P a (with_keys b []) k all) [
      | inl p ↦ p
      | inr none_a ↦ elim (with_keys-reaches P b [] k (with_keys-kept P a (with_keys b []) all)) [
        | inl p ↦ p
        | inr none_b ↦ neither (get k a) (get k b) none_a none_b
      ]
    ])

pub keys_of_maps :
    (P : String → Type 0) (a b : Members)
    → ((k : String) → ¬ ((get k a ≡ none) × (get k b ≡ none)) → P k)
    → All P (with_keys a (with_keys b []))
keys_of_maps P a b at =
    with_keys-All P a (with_keys b []) (λ k there. at k (λ (n, m). there n))
      (with_keys-All P b [] (λ k there. at k (λ (n, m). there m)) tt)

-- Two values are maps, or arrays, or they are compared.
data Shape : Value → Value → Type 0 where
  maps : (a b : Members) → Shape (object a) (object b)
  arrays : (vs ws : Elements) → Shape (array vs) (array ws)
  others :
      (v w : Value)
      → ((n : ℕ) → equal (suc n) v w ≡ ite (Value-discrete v w) true false)
      → Shape v w

shape : (v w : Value) → Shape v w
unfolding equal
shape (object a) (object b) = maps a b
shape (array vs) (array ws) = arrays vs ws
shape v w = others v w (λ n. refl)

entry-Same :
    (eq : Value → Value → Bool) (o o' : Option Value)
    → ((v w : Value) → eq v w ≡ true → Same v w)
    → entry_equal eq o o' ≡ true
    → SameAt o o'
unfolding entry_equal
entry-Same eq (some v) (some w) f e = present v w (f v w e)
entry-Same eq (some v) none f e = cc
entry-Same eq none (some w) f e = cc
entry-Same eq none none f e = cc

keys-Same :
    (eq : Value → Value → Bool) (a b : Members) (keys : List String)
    → ((v w : Value) → eq v w ≡ true → Same v w)
    → map_equal eq a b keys ≡ true
    → All (λ k. SameAt (get k a) (get k b)) keys
unfolding map_equal
keys-Same eq a b [] f e = tt
keys-Same eq a b (k ∷ keys) f e =
    (entry-Same eq (get k a) (get k b) f (ground arith), keys-Same eq a b keys f (ground arith))

elements-Same :
    (eq : Value → Value → Bool) (vs ws : Elements)
    → ((v w : Value) → eq v w ≡ true → Same v w)
    → elements_equal eq vs ws ≡ true
    → SameAll vs ws
unfolding elements_equal
elements-Same eq no_more no_more f e = both_end
elements-Same eq no_more (element w ws) f e = cc
elements-Same eq (element v vs) no_more f e = cc
elements-Same eq (element v vs) (element w ws) f e =
    both_go_on v w vs ws (f v w (ground arith)) (elements-Same eq vs ws f (ground arith))

others-Same : (v w : Value) → ite (Value-discrete v w) true false ≡ true → Same v w
others-Same v w = elim (Value-discrete v w) as (λ d. ite d true false ≡ true → Same v w) [
  | yes same ↦ λ h. subst (Same v) same (same_value v)
  | no differ ↦ λ h. cc
]

shaped-Same :
    (n : ℕ) (v w : Value)
    → ((x y : Value) → equal n x y ≡ true → Same x y)
    → Shape v w
    → equal (suc n) v w ≡ true
    → Same v w
unfolding equal
shaped-Same n _ _ f (maps a b) e =
    maps_of_keys a b (keys-Same (equal n) a b (with_keys a (with_keys b [])) f e)
shaped-Same n _ _ f (arrays vs ws) e = same_arrays vs ws (elements-Same (equal n) vs ws f e)
shaped-Same n _ _ f (others v w g) e = others-Same v w (sym (g n) ∙ e)

pub equal-Same : (n : ℕ) (v w : Value) → equal n v w ≡ true → Same v w
unfolding equal
equal-Same zero v w e = cc
equal-Same (suc n) v w e = shaped-Same n v w (equal-Same n) (shape v w) e

Same-entry :
    (eq : Value → Value → Bool) (o o' : Option Value)
    → ((v w : Value) → o ≡ some v → Same v w → eq v w ≡ true)
    → SameAt o o'
    → ¬ ((o ≡ none) × (o' ≡ none))
    → entry_equal eq o o' ≡ true
unfolding entry_equal
Same-entry eq _ _ f absent h = absurd (h (refl, refl))
Same-entry eq _ _ f (present v w s) h = f v w refl s

map_equal-All :
    (eq : Value → Value → Bool) (a b : Members) (keys : List String)
    → All (λ k. entry_equal eq (get k a) (get k b) ≡ true) keys
    → map_equal eq a b keys ≡ true
unfolding map_equal
map_equal-All eq a b [] h = refl
map_equal-All eq a b (k ∷ keys) (here, rest) = rw (here, map_equal-All eq a b keys rest) refl

Same-maps :
    (n : ℕ) (a b : Members)
    → ((x y : Value) → depth x ≤ n → Same x y → equal n x y ≡ true)
    → depth (object a) ≤ suc n
    → ((k : String) → SameAt (get k a) (get k b))
    → equal (suc n) (object a) (object b) ≡ true
unfolding equal depth
Same-maps n a b f l same = map_equal-All (equal n) a b (with_keys a (with_keys b [])) (
    keys_of_maps (λ k. entry_equal (equal n) (get k a) (get k b) ≡ true) a b
      (λ k.
        Same-entry (equal n) (get k a) (get k b)
          (λ v w there. f v w (omega (arith, get-depth k a v there))) (same k)))

Same-elements :
    (n : ℕ) (vs ws : Elements)
    → ((x y : Value) → depth x ≤ n → Same x y → equal n x y ≡ true)
    → depth_elements vs ≤ n
    → SameAll vs ws
    → elements_equal (equal n) vs ws ≡ true
unfolding elements_equal depth
Same-elements n _ _ f l both_end = refl
Same-elements n _ _ f l (both_go_on v w vs ws s all) =
    rw (f v w (omega arith) s, Same-elements n vs ws f (omega arith) all) refl

Same-self : (v : Value) → ite (Value-discrete v v) true false ≡ true
Same-self v = elim (Value-discrete v v) as (λ d. ite d true false ≡ true) [
  | yes same ↦ refl
  | no differ ↦ absurd (differ refl)
]

value-equal :
    (n : ℕ) (v : Value)
    → ((x y : Value) → depth x ≤ n → Same x y → equal n x y ≡ true)
    → depth v ≤ suc n
    → equal (suc n) v v ≡ true
unfolding equal depth
value-equal n (object a) f l = Same-maps n a a f l (λ k. same_at (get k a))
value-equal n (array vs) f l = Same-elements n vs vs f (omega arith) (same_all vs)
value-equal n v f l = Same-self v

pub Same-equal : (n : ℕ) (v w : Value) → depth v ≤ n → Same v w → equal n v w ≡ true
unfolding equal depth
Same-equal zero v w l s = absurd (omega (arith, depth-positive v))
Same-equal (suc n) _ _ l (same_value v) = value-equal n v (Same-equal n) l
Same-equal (suc n) _ _ l (same_maps a b same) = Same-maps n a b (Same-equal n) l same
Same-equal (suc n) _ _ l (same_arrays vs ws all) =
    Same-elements n vs ws (Same-equal n) (omega arith) all
