-- ===== src/Sse/Routing.antt =====
-- The routing of events (workers/sse_worker.rs): which channels are offered an event, what is
-- counted and which connections are dropped.
use roboplc_middle.Prelude.{
  ℕ, ◌+◌, ◌≡◌, refl, ap, Bool, true, false, String, List, [], ◌∷◌, ◌||◌, none, arith, if◌then◌else◌,
  inl, inr, Bool-cases, ◌==◌,
}
use roboplc_middle.Prelude.Maps.{nat_key, find, find-remove}
use roboplc_middle.Sse.{
  SseEventData, heartbeat, Channels, Offer, sent, full, closed, SseConnection,
  SseConnectionRegistry, Registry, Sends, Entry, counted, unregister, drop_dead, offer_all, cleaned,
  is_target, send_to_subscribers, send_heartbeat_to_all,
}

-- Whether an id is in a list.
abbrev pub among : ℕ → List ℕ → Bool
among i [] = false
among i (x ∷ xs) = (x == i) || among i xs

module _ {Sender : Type 0} where
  drop_dead_lem :
      (ids : List ℕ) (r : SseConnectionRegistry Sender) (i : ℕ)
      → (find i (drop_dead ids r).connections
          ≡ (if among i ids then none else find i r.connections))
        × ((drop_dead ids r).next_id ≡ r.next_id)
  unfolding drop_dead unregister
  drop_dead_lem [] r i = (refl, refl)
  drop_dead_lem (id ∷ ids) r i =
      ground (arith, drop_dead_lem ids (unregister id r).0 i, find-remove id i r.connections)

module _ {Value : Type 0} (ch : Channels Value) where
  -- The connections of a walk that are wanted, in its order.
  pub targets : (SseConnection ch.Sender → Bool) → List (Entry ch) → List (Entry ch)
  targets wanted [] = []
  targets wanted ((id, c) ∷ rest) =
      let others = targets wanted rest in if wanted c then (id, c) ∷ others else others

  -- One offer to each connection of a list, and how each ended.
  pub offers : SseEventData Value → List (Entry ch) → ch.State → ch.State × List (ℕ × Offer)
  offers event [] s = (s, [])
  offers event ((id, c) ∷ rest) s =
      let (s', offer) = ch.try_send c.sender event s in
      let (s'', others) = offers event rest s' in (s'', (id, offer) ∷ others)

  pub sent_in : List (ℕ × Offer) → ℕ
  sent_in [] = 0
  sent_in ((id, sent) ∷ os) = sent_in os + 1
  sent_in ((id, full) ∷ os) = sent_in os
  sent_in ((id, closed) ∷ os) = sent_in os

  pub closed_in : List (ℕ × Offer) → List ℕ
  closed_in [] = []
  closed_in ((id, closed) ∷ os) = id ∷ closed_in os
  closed_in ((id, sent) ∷ os) = closed_in os
  closed_in ((id, full) ∷ os) = closed_in os

  abbrev summary : ch.State × List (ℕ × Offer) → Sends ch
  summary (s, os) = (s, sent_in os, closed_in os)

  abbrev cons_offer : ℕ → Offer → ch.State × List (ℕ × Offer) → ch.State × List (ℕ × Offer)
  cons_offer id o (s, os) = (s, (id, o) ∷ os)

  counted-summary :
      (id : ℕ) (o : Offer) (r : ch.State × List (ℕ × Offer))
      → counted ch id o (summary r) ≡ summary (cons_offer id o r)
  unfolding sent_in closed_in
  counted-summary id sent (s, os) = refl
  counted-summary id full (s, os) = refl
  counted-summary id closed (s, os) = refl

  offer_all-offers :
      (wanted : SseConnection ch.Sender → Bool) (event : SseEventData Value) (es : List (Entry ch))
      (s : ch.State)
      → offer_all ch wanted event es s ≡ summary (offers event (targets wanted es) s)
  unfolding offer_all offers targets sent_in closed_in
  offer_all-offers wanted event [] s = refl
  offer_all-offers wanted event ((id, c) ∷ rest) s = elim (Bool-cases (wanted c)) [
    | inl e ↦
        let (s', o) = ch.try_send c.sender event s in
        rw (e, offer_all-offers wanted event rest s')
          (counted-summary id o (offers event (targets wanted rest) s'))
    | inr e ↦ rw e (offer_all-offers wanted event rest s)
  ]

  -- What a send of an event to a list of connections does to a registry: each is offered the event
  -- once, in order; those whose channel took it are counted; those whose channel is closed are
  -- removed, and nothing else changes.
  pub Routed :
      SseEventData Value
      → List (Entry ch)
      → Registry ch
      → ch.State
      → Registry ch × ch.State × ℕ
      → Type 0
  Routed event to r s (r', s', n) =
      let (after, os) = offers event to s in
      (s' ≡ after)
      × (n ≡ sent_in os)
      × (r'.next_id ≡ r.next_id)
      × ((i : ℕ)
          → find i r'.connections ≡ (if among i (closed_in os) then none else find i r.connections))

  cleaned-Routed :
      (wanted : SseConnection ch.Sender → Bool) (event : SseEventData Value) (r : Registry ch)
      (s : ch.State)
      → Routed event
          (targets wanted r.connections)
          r
          s
          (cleaned ch r (offer_all ch wanted event r.connections s))
  unfolding Routed offers cleaned
  cleaned-Routed wanted event r s = rw (offer_all-offers wanted event r.connections s) (
      let (s', os) = offers event (targets wanted r.connections) s in
      (refl, refl, (drop_dead_lem (closed_in os) r 0).1, λ i. (drop_dead_lem (closed_in os) r i).0))

  targets_all : (es : List (Entry ch)) → targets (λ c. true) es ≡ es
  unfolding targets
  targets_all [] = refl
  targets_all ((id, c) ∷ rest) = ap (◌∷◌ (id, c)) (targets_all rest)

  -- An update is offered, once each and in the order of the walk, to the connections of its device
  -- that subscribe to its group, and a heartbeat to all connections. The result is the number of
  -- channels that took it; the connections whose channel was closed are removed, and all others
  -- stay as they are, those with a full channel included.
  pub send-Routed :
      (device_id signal_group : String) (event : SseEventData Value) (r : Registry ch)
      (s : ch.State)
      → Routed event
          (targets (is_target ch device_id signal_group) r.connections)
          r
          s
          (send_to_subscribers ch device_id signal_group event r s)
        × Routed heartbeat r.connections r s (send_heartbeat_to_all ch r s)
  unfolding send_to_subscribers send_heartbeat_to_all
  send-Routed d g event r s = (
    cleaned-Routed (is_target ch d g) event r s,
    rw (targets_all r.connections) at (cleaned-Routed (λ c. true) heartbeat r s),
  )
