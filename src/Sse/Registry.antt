-- ===== src/Sse/Registry.antt =====
-- The registry of connections (workers/sse_worker.rs): the limit on its size and its ids, over
-- any calls.
use roboplc_middle.Prelude.{
  ℕ, suc, ◌+◌, ◌%◌, ◌^◌, ◌≤◌, ◌<◌, ◌≡◌, ◌≢◌, refl, ap, true, String, List, [], ◌∷◌, none, some,
  arith, leb, if◌then◌else◌, inl, inr, Bool-cases, length, All, All-map, length-append,
}
use roboplc_middle.Prelude.Maps.{
  nat_key, IsMap, find, find-insert, All-insert, All-remove, insert-IsMap, remove-IsMap,
  length-remove, insert_fresh,
}
use roboplc_middle.Modbus.Io.{Outcome, ok, err}
use roboplc_middle.Sse.{
  SseEventData, Channels, SseConnection, SseConnectionRegistry, Registry, Sends, new, register,
  unregister, count, drop_dead, clear, offer_all, cleaned, send_to_subscribers,
  send_heartbeat_to_all, is_target, max_sse_connections,
}

module _ {Sender : Type 0} where
  -- A registry after at most `n` registrations.
  pub record IsSound (n : ℕ) (r : SseConnectionRegistry Sender) : Type 0 where
    pub different : IsMap r.connections
    pub issued : All (λ e. e.0 < r.next_id) r.connections
    pub within : length r.connections ≤ max_sse_connections
    pub few : r.next_id ≤ n

  pub new-IsSound : IsSound 0 (new {Sender = Sender})
  unfolding new
  new-IsSound = record { different = tt; issued = tt; within = omega arith; few = omega arith }

  pub IsSound-weaken : {r : SseConnectionRegistry Sender} (n : ℕ) → IsSound n r → IsSound (n + 1) r
  IsSound-weaken n h = record {
    different = h.different;
    issued = h.issued;
    within = h.within;
    few = omega (arith, h.few);
  }

  pub issued-fresh :
      (n : ℕ) (m : List (ℕ × SseConnection Sender)) → All (λ e. e.0 < n) m → All (λ e. n ≢ e.0) m
  issued-fresh n m h = All-map (λ e. e.0 < n) (λ e. n ≢ e.0) m (λ e l q. omega arith) h

  issued-later :
      (n : ℕ) (m : List (ℕ × SseConnection Sender))
      → All (λ e. e.0 < n) m
      → All (λ e. e.0 < n + 1) m
  issued-later n m h = All-map (λ e. e.0 < n) (λ e. e.0 < n + 1) m (λ e l. omega arith) h

  -- What `register` does to a registry.
  unfoldable pub Registered :
      SseConnection Sender
      → SseConnectionRegistry Sender
      → SseConnectionRegistry Sender × Outcome ℕ
      → Type 0
  Registered c r (r', err e) = (max_sse_connections ≤ count r) × (r' ≡ r)
  Registered c r (r', ok id) =
      (count r < max_sse_connections)
      × (count r' ≡ count r + 1)
      × (id ≡ r.next_id)
      × ((j : ℕ)
          → find j r'.connections ≡ (if nat_key.beq id j then some c else find j r.connections))
      × (find id r.connections ≡ none)

  fresh-none :
      (n : ℕ) (m : List (ℕ × SseConnection Sender)) → All (λ e. n ≢ e.0) m → find n m ≡ none
  unfolding find
  fresh-none n [] h = refl
  fresh-none n ((j, c) ∷ m) (d, h) = ground (arith, fresh-none n m h)

  -- A registration is refused exactly if 100 connections are there, and then changes nothing. Else
  -- it adds the connection under an id that none of the others has, and leaves those as they are.
  pub register-Registered :
      (n : ℕ) (c : SseConnection Sender) (r : SseConnectionRegistry Sender)
      → IsSound n r
      → Registered c r (register c r)
  unfolding Registered register count
  register-Registered n c r h = elim (Bool-cases (leb max_sse_connections (length r.connections))) [
    | inl e ↦ rw e (ground arith, refl)
    | inr e ↦ rw e (
      ground arith,
      omega (
        arith,
        ap length (insert_fresh r.next_id c r.connections (issued-fresh _ _ h.issued)),
        length-append r.connections ((r.next_id, c) ∷ []),
      ),
      refl,
      λ j. find-insert r.next_id j c r.connections,
      fresh-none r.next_id r.connections (issued-fresh _ _ h.issued),
    )
  ]

  pub register-IsSound :
      (n : ℕ) (c : SseConnection Sender) (r : SseConnectionRegistry Sender)
      → n + 1 < 2 ^ 64
      → IsSound n r
      → IsSound (n + 1) (register c r).0
  unfolding register
  register-IsSound n c r l h = elim (Bool-cases (leb max_sse_connections (length r.connections))) [
    | inl e ↦ rw e (IsSound-weaken n h)
    | inr e ↦
        let next : (r.next_id + 1) % 2 ^ 64 ≡ r.next_id + 1 = omega (arith, h.few) in
        rw e (record {
          different = insert-IsMap r.next_id c r.connections h.different;
          issued = rw next (
              All-insert (λ e. e.0 < r.next_id + 1) r.next_id c r.connections (omega arith)
                (issued-later r.next_id r.connections h.issued));
          within =
              rw (insert_fresh r.next_id c r.connections (issued-fresh _ _ h.issued))
                (ground (arith, length-append r.connections ((r.next_id, c) ∷ [])));
          few = omega (arith, h.few, next);
        })
  ]

  pub unregister-IsSound :
      (n id : ℕ) (r : SseConnectionRegistry Sender) → IsSound n r → IsSound n (unregister id r).0
  unfolding unregister
  unregister-IsSound n id r h = record {
    different = remove-IsMap id r.connections h.different;
    issued = All-remove (λ e. e.0 < r.next_id) id r.connections h.issued;
    within = omega (arith, h.within, length-remove id r.connections);
    few = h.few;
  }

  pub drop_dead-IsSound :
      (n : ℕ) (ids : List ℕ) (r : SseConnectionRegistry Sender)
      → IsSound n r
      → IsSound n (drop_dead ids r)
  unfolding drop_dead
  drop_dead-IsSound n [] r h = h
  drop_dead-IsSound n (id ∷ ids) r h =
      drop_dead-IsSound n ids (unregister id r).0 (unregister-IsSound n id r h)

  pub clear-IsSound : (n : ℕ) (r : SseConnectionRegistry Sender) → IsSound n r → IsSound n (clear r)
  unfolding clear
  clear-IsSound n r h = record { different = tt; issued = tt; within = omega arith; few = h.few }

module _ {Value : Type 0} (ch : Channels Value) where
  -- A call of the registry.
  pub data Call : Type 0 where
    on_register : SseConnection ch.Sender → Call
    on_unregister : ℕ → Call
    on_send : String → String → SseEventData Value → Call
    on_heartbeat on_clear : Call

  abbrev pub Situation : Type 0
  Situation = Registry ch × ch.State

  abbrev without_count : Registry ch × ch.State × ℕ → Situation
  without_count (r, s, n) = (r, s)

  unfoldable pub apply : Call → Situation → Situation
  apply (on_register c) (r, s) = ((register c r).0, s)
  apply (on_unregister id) (r, s) = ((unregister id r).0, s)
  apply (on_send d g event) (r, s) = without_count (send_to_subscribers ch d g event r s)
  apply on_heartbeat (r, s) = without_count (send_heartbeat_to_all ch r s)
  apply on_clear (r, s) = (clear r, s)

  unfoldable pub calls : List Call → Situation → Situation
  unfolding apply
  calls [] at = at
  calls (c ∷ cs) at = calls cs (apply c at)

  cleaned-IsSound :
      (n : ℕ) (r : Registry ch) (sends : Sends ch)
      → IsSound n r
      → IsSound n (without_count (cleaned ch r sends)).0
  unfolding drop_dead
  cleaned-IsSound n r (s, k, dead) h = drop_dead-IsSound n dead r h

  apply-IsSound :
      (n : ℕ) (c : Call) (r : Registry ch) (s : ch.State)
      → n + 1 < 2 ^ 64
      → IsSound n r
      → IsSound (n + 1) (apply c (r, s)).0
  unfolding apply send_to_subscribers send_heartbeat_to_all
  apply-IsSound n (on_register c) r s l h = register-IsSound n c r l h
  apply-IsSound n (on_unregister id) r s l h = IsSound-weaken n (unregister-IsSound n id r h)
  apply-IsSound n (on_send d g event) r s l h =
      IsSound-weaken n
        (cleaned-IsSound n r (offer_all ch (is_target ch d g) event r.connections s) h)
  apply-IsSound n on_heartbeat r s l h =
      IsSound-weaken n
        (cleaned-IsSound n r (offer_all ch (λ c. true) SseEventData.heartbeat r.connections s) h)
  apply-IsSound n on_clear r s l h = IsSound-weaken n (clear-IsSound n r h)

  calls-from :
      (n : ℕ) (cs : List Call) (at : Situation)
      → n + length cs < 2 ^ 64
      → IsSound n at.0
      → IsSound (n + length cs) (calls cs at).0
  unfolding calls
  calls-from n [] at l h = rw (let e : n + 0 ≡ n = omega arith in e) h
  calls-from n (c ∷ cs) (r, s) l h =
      rw (let e : n + suc (length cs) ≡ (n + 1) + length cs = omega arith in e) (
        calls-from (n + 1) cs (apply c (r, s)) (omega arith)
          (apply-IsSound n c r s (omega arith) h))

  -- After fewer than 2^64 calls of any kind, one after another, on a new registry, whatever the
  -- channels do, its connections have different ids below `next_id` and are at most 100.
  pub calls-IsSound :
      (cs : List Call) (s : ch.State)
      → length cs < 2 ^ 64
      → IsSound (length cs) (calls cs (new, s)).0
  calls-IsSound cs s l =
      rw (let e : length cs ≡ 0 + length cs = omega arith in e)
        (calls-from 0 cs (new, s) (omega arith) new-IsSound)
