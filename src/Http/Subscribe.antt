-- ===== src/Http/Subscribe.antt =====
-- The subscription of an event stream (workers/http_worker.rs, `sse_stream`).
use mathlib.Core.List.{append-nil}
use roboplc_middle.Prelude.{
  ℕ, ◌≤◌, ◌<◌, ◌≡◌, ◌≢◌, refl, ap, String, List, [], ◌∷◌, ◌++◌, none, some, arith, ◌==◌,
  if◌then◌else◌, ◌⊎◌, inl, inr, Bool-cases, All,
}
use roboplc_middle.Prelude.Json.{Json}
use roboplc_middle.Prelude.Maps.{nat_key, find}
use roboplc_middle.Modbus.Address.{trim}
use roboplc_middle.Modbus.Io.{Outcome, ok, err}
use roboplc_middle.Shared.{millis}
use roboplc_middle.Sse.{Channels, Registry, count, max_sse_connections}
use roboplc_middle.Sse.Registry.{IsSound, Registered, register-Registered}
use roboplc_middle.Http.{
  split_commas, named, signal_groups_of, refused, streaming, Answered, registered, stream_groups,
  sse_stream,
}

-- A name that a query can carry: without a comma and without spaces around it, and not empty.
abbrev pub Clean : List ℕ → Type 0
Clean g = (g ≢ []) × (trim g ≡ g) × All (λ c. c ≢ b',') g

-- The names with commas between them.
unfoldable pub joined : List ℕ → List (List ℕ) → List ℕ
joined g [] = g
joined g (h ∷ hs) = g ++ (b',' ∷ joined h hs)

split-name :
    (g rest : List ℕ)
    → All (λ c. c ≢ b',') g
    → split_commas (g ++ rest) ≡ (g ++ (split_commas rest).0, (split_commas rest).1)
unfolding split_commas
split-name [] rest h = refl
split-name (c ∷ cs) rest (n, h) = elim (Bool-cases (c == b',')) [
  | inl e ↦ absurd (n (ground arith))
  | inr e ↦ rw (split-name cs rest h, e)
]

split-joined :
    (g : List ℕ) (hs : List (List ℕ))
    → Clean g
    → All Clean hs
    → split_commas (joined g hs) ≡ (g, hs)
unfolding joined split_commas
split-joined g [] c cs = rw (← append-nil g) (split-name g [] c.2)
split-joined g (h ∷ hs) c (d, ds) =
    rw (split-name g (b',' ∷ joined h hs) c.2, split_commas)
      (rw (split-joined h hs d ds) (ap (λ (x : List ℕ). (x, h ∷ hs)) (append-nil g)))

named-Clean : (gs : List (List ℕ)) → All Clean gs → named gs ≡ gs
unfolding named
named-Clean [] cs = refl
named-Clean ([] ∷ gs) (c, cs) = absurd (c.0 refl)
named-Clean ((x ∷ xs) ∷ gs) (c, cs) = rw (c.1, named) (ap (◌∷◌ (x ∷ xs)) (named-Clean gs cs))

-- The text of a query that joins names by commas gives back those names, if each is not empty, has
-- no comma and no space at its ends.
pub signal_groups_of-joined :
    (g : List ℕ) (hs : List (List ℕ))
    → Clean g
    → All Clean hs
    → signal_groups_of (joined g hs) ≡ g ∷ hs
unfolding signal_groups_of
signal_groups_of-joined g hs c cs = rw (split-joined g hs c cs) (named-Clean (g ∷ hs) (c, cs))

module _ {F64 : Type 0} (js : Json F64) (ch : Channels js.Value) where
  -- What a query for groups does to the registry and answers.
  pub Answers : String → List (List ℕ) → ℕ → Registry ch → Answered js ch → Type 0
  Answers device groups now r (r', s', refused code body) =
      (r' ≡ r)
      × (((code ≡ 400) × (groups ≡ []))
          ⊎ ((code ≡ 503) × (groups ≢ []) × (max_sse_connections ≤ count r)))
  Answers device groups now r (r', s', streaming id) =
      (groups ≢ [])
      × (count r < max_sse_connections)
      × (find id r.connections ≡ none)
      × ((sender : ch.Sender) × ((j : ℕ)
            → find j r'.connections ≡ (
                if nat_key.beq id j
                then some (record {
                  device_id = device;
                  signal_groups = groups;
                  connected_at = millis now;
                  sender = sender;
                })
                else find j r.connections)))

  registered-Answers :
      (device : String) (g : List ℕ) (gs : List (List ℕ)) (now : ℕ) (r : Registry ch)
      (sender : ch.Sender) (s : ch.State) (done : Registry ch × Outcome ℕ)
      → Registered
          (record {
            device_id = device;
            signal_groups = g ∷ gs;
            connected_at = millis now;
            sender = sender;
          })
          r
          done
      → Answers device (g ∷ gs) now r (registered js ch s done)
  unfolding Answers Registered
  registered-Answers device g gs now r sender s (r', ok id) (few, more, next, found, fresh) =
      (λ e. cc, few, fresh, (sender, found))
  registered-Answers device g gs now r sender s (r', err e) (full, same) =
      (same, inr (refl, λ e. cc, full))

  stream_groups-Answers :
      (n : ℕ) (device : String) (groups : List (List ℕ)) (now : ℕ) (r : Registry ch) (s : ch.State)
      → IsSound n r
      → Answers device groups now r (stream_groups js ch device groups now r s)
  unfolding Answers stream_groups
  stream_groups-Answers n device [] now r s h = (refl, inl (refl, refl))
  stream_groups-Answers n device (g ∷ gs) now r s h =
      let (s', sender) = ch.channel 100 s in
      registered-Answers device g gs now r sender s' _ (register-Registered n _ r h)

  -- A request for a stream that names no group is refused with 400, one that finds 100 connections
  -- with 503, and both leave the registry as it is. Any other is registered under a new id for the
  -- named groups, next to the connections that are there.
  pub sse_stream-Answers :
      (n : ℕ) (device : String) (groups : List ℕ) (now : ℕ) (r : Registry ch) (s : ch.State)
      → IsSound n r
      → Answers device (signal_groups_of groups) now r (sse_stream js ch device groups now r s)
  unfolding sse_stream
  sse_stream-Answers n device groups now r s h =
      stream_groups-Answers n device (signal_groups_of groups) now r s h
