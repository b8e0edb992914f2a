-- ===== src/Reload/Keys.antt =====
-- The keys of a map and the depth of its values (workers/config_loader.rs).
use Prim.Native.String.{compare}
use mathlib.Core.Path.{subst}
use roboplc_middle.Prelude.{
  ◌≤◌, ◌≡◌, ◌≢◌, ◌⊎◌, refl, sym, Bool, true, false, String, List, [], ◌∷◌, none, some, arith,
  if◌then◌else◌, inl, inr, Bool-cases, All, if-both,
}
use roboplc_middle.Prelude.Maps.{string_key}
use roboplc_middle.Reload.{
  Value, null, bool, number, string, array, object, Members, done, member, get, insert_key,
  with_keys, depth, depth_members, before,
}

All-if :
    (P : String → Type 0) (b : Bool) (xs ys : List String)
    → All P (if b then xs else ys)
    → ((b ≡ true) × All P xs) ⊎ All P ys
All-if P true xs ys h = inl (refl, h)
All-if P false xs ys h = inr h

-- What holds of all keys of a set holds of what was put into it.
insert_key-inverse :
    (P : String → Type 0) (k : String) (ks : List String) → All P (insert_key k ks) → P k × All P ks
unfolding insert_key
insert_key-inverse P k [] h = h
insert_key-inverse P k (j ∷ js) h = elim (All-if P (string_key.beq k j) (j ∷ js) _ h) [
  | inl (e, l) ↦ (subst P (sym ((string_key.beq_iff k j).0 e)) l.0, l)
  | inr l ↦ elim (All-if P _ (k ∷ j ∷ js) (j ∷ insert_key k js) l) [
    | inl (e, l) ↦ l
    | inr (p, l) ↦ let (q, rest) = insert_key-inverse P k js l in (q, (p, rest))
  ]
]

pub with_keys-kept :
    (P : String → Type 0) (m : Members) (ks : List String) → All P (with_keys m ks) → All P ks
unfolding with_keys
with_keys-kept P done ks h = h
with_keys-kept P (member k v m) ks h =
    with_keys-kept P m ks (insert_key-inverse P k (with_keys m ks) h).1

-- A key is in the map and has the property, or it is not in the map.
pub with_keys-reaches :
    (P : String → Type 0) (m : Members) (ks : List String) (k : String)
    → All P (with_keys m ks)
    → P k ⊎ (get k m ≡ none)
unfolding with_keys get
with_keys-reaches P done ks k h = inr refl
with_keys-reaches P (member j v m) ks k h =
    let (here, rest) = insert_key-inverse P j (with_keys m ks) h in
    elim (Bool-cases (string_key.beq j k)) [
      | inl e ↦ inl (subst P ((string_key.beq_iff j k).0 e) here)
      | inr e ↦ rw e (with_keys-reaches P m ks k rest)
    ]

insert_key-All :
    (P : String → Type 0) (k : String) (ks : List String) → P k → All P ks → All P (insert_key k ks)
unfolding insert_key
insert_key-All P k [] p h = (p, tt)
insert_key-All P k (j ∷ js) p (q, h) =
    if-both (All P) (string_key.beq k j) (q, h)
      (if-both (All P) (before (compare k j)) (p, (q, h)) (q, insert_key-All P k js p h))

pub with_keys-All :
    (P : String → Type 0) (m : Members) (ks : List String)
    → ((k : String) → get k m ≢ none → P k)
    → All P ks
    → All P (with_keys m ks)
unfolding with_keys get
with_keys-All P done ks f h = h
with_keys-All P (member j v m) ks f h =
    insert_key-All P j (with_keys m ks) (f j (rw ((string_key.beq_iff j j).1 refl) (λ e. cc))) (
      with_keys-All P m ks
        (λ k there.
          f k (elim (Bool-cases (string_key.beq j k)) [
            | inl e ↦ rw e (λ n. cc)
            | inr e ↦ rw e there
          ]))
        h)

-- The values in a map are less deep.
pub get-depth :
    (k : String) (m : Members) (v : Value) → get k m ≡ some v → depth v ≤ depth_members m
unfolding get depth
get-depth k done v e = cc
get-depth k (member j w m) v e = elim (Bool-cases (string_key.beq j k)) [
  | inl same ↦ let here : w ≡ v = ground arith in rw (← here) (omega arith)
  | inr other ↦ omega (arith, get-depth k m v (ground arith))
]

pub depth-positive : (v : Value) → 1 ≤ depth v
unfolding depth
depth-positive null = omega arith
depth-positive (bool b) = omega arith
depth-positive (number n) = omega arith
depth-positive (string s) = omega arith
depth-positive (array vs) = omega arith
depth-positive (object m) = omega arith
