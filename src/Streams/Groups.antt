-- ===== src/Streams/Groups.antt =====
-- The grouping of streams by their interval (workers/data_stream_worker.rs).
use mathlib.Core.List.{append_assoc}
use roboplc_middle.Prelude.{
  ℕ, ◌≡◌, refl, ap, ◌∙◌, List, [], ◌∷◌, ◌++◌, Option, none, some, arith, ◌==◌, ◌&&◌, if◌then◌else◌,
  inl, inr, Bool-cases, push_back,
}
use roboplc_middle.Prelude.Maps.{nat_key, IsMap, find, find-insert, insert-IsMap}
use roboplc_middle.Config.{StreamConfig}
use roboplc_middle.Streams.{
  StreamGroups, or_default, add_stream, group_loop, group_streams_by_interval,
}

-- The enabled streams of an interval, in order.
unfoldable pub streams_at : ℕ → List StreamConfig → List StreamConfig
streams_at i [] = []
streams_at i (s ∷ ss) =
    let others = streams_at i ss in
    if s.enabled && (s.poll_interval_ms == i) then s ∷ others else others

-- A group with more streams; with none there is no group to begin with.
abbrev extended : Option (List StreamConfig) → List StreamConfig → Option (List StreamConfig)
extended o [] = o
extended none (s ∷ ss) = some (s ∷ ss)
extended (some rs) (s ∷ ss) = some (rs ++ (s ∷ ss))

extended-step :
    (o : Option (List StreamConfig)) (s : StreamConfig) (ss : List StreamConfig)
    → extended (some (push_back (or_default o) s)) ss ≡ extended o (s ∷ ss)
extended-step none s [] = refl
extended-step (some rs) s [] = refl
extended-step none s (t ∷ ss) = refl
extended-step (some rs) s (t ∷ ss) =
    ap {B = Option (List StreamConfig)} some (append_assoc rs (s ∷ []) (t ∷ ss))

find-add_stream :
    (i : ℕ) (s : StreamConfig) (groups : StreamGroups)
    → find i (add_stream s groups) ≡ (
        if s.enabled && (s.poll_interval_ms == i)
        then some (push_back (or_default (find i groups)) s)
        else find i groups)
unfolding add_stream
find-add_stream i s groups = ground (
  arith,
  find-insert s.poll_interval_ms i (push_back (or_default (find s.poll_interval_ms groups)) s)
      groups,
)

group_loop-extended :
    (i : ℕ) (groups : StreamGroups) (ss : List StreamConfig)
    → find i (group_loop groups ss) ≡ extended (find i groups) (streams_at i ss)
unfolding group_loop streams_at
group_loop-extended i groups [] = refl
group_loop-extended i groups (s ∷ ss) =
    rw (group_loop-extended i (add_stream s groups) ss, find-add_stream i s groups)
      (elim (Bool-cases (s.enabled && (s.poll_interval_ms == i))) [
        | inl e ↦ rw e (extended-step (find i groups) s (streams_at i ss))
        | inr e ↦ rw e
      ])

group_loop-IsMap :
    (groups : StreamGroups) (ss : List StreamConfig) → IsMap groups → IsMap (group_loop groups ss)
unfolding group_loop add_stream
group_loop-IsMap groups [] h = h
group_loop-IsMap groups (s ∷ ss) h =
    group_loop-IsMap (add_stream s groups) ss (elim (Bool-cases s.enabled) [
      | inl e ↦ rw e (insert-IsMap s.poll_interval_ms _ groups h)
      | inr e ↦ rw e h
    ])

-- A group, if there are streams for one.
abbrev pub if_any : List StreamConfig → Option (List StreamConfig)
if_any [] = none
if_any (s ∷ ss) = some (s ∷ ss)

none-extended : (ss : List StreamConfig) → extended none ss ≡ if_any ss
none-extended [] = refl
none-extended (s ∷ ss) = refl

-- There is one group for each interval that an enabled stream has and no other group, and it holds
-- exactly the enabled streams of that interval, in the order of the configuration.
pub group_streams-find :
    (streams : List StreamConfig)
    → ((i : ℕ) → find i (group_streams_by_interval streams) ≡ if_any (streams_at i streams))
      × IsMap (group_streams_by_interval streams)
unfolding group_streams_by_interval find
group_streams-find streams = (
  λ i. group_loop-extended i [] streams ∙ none-extended (streams_at i streams),
  group_loop-IsMap [] streams tt,
)
