-- ===== src/Hub/Threads/Drain.antt =====
-- The threads of the send pool come to rest if the hub takes what they send (hub_protection.rs).
use mathlib.Core.List.{Perm, append-nil}
use mathlib.Core.Path.{subst}
use roboplc_middle.Prelude.{
  ℕ, zero, suc, ◌<◌, ◌≡◌, refl, sym, ap, ◌∙◌, true, List, [], ◌∷◌, ◌++◌, arith, length, some,
  get_elem?, set, length-set, All,
}
use roboplc_middle.Hub.Threads.{
  Thread, receiving, sending, SendPool, Event, submitted, turn, new, receive, advance, handle, run,
}
use roboplc_middle.Hub.Threads.Sound.{
  in_hand, Split-length, set-sending, set-receiving, run-keeps, new-IsSound,
}

module _ {Task : Type 0} where
  -- A turn of a thread whose `hub.send` returns, and no caller.
  abbrev pub IsTurn : Event Task → Type 0
  IsTurn (submitted t) = ⊥
  IsTurn (turn i returns) = returns ≡ true

  -- A thread that sends, if there is a task in hand.
  busy :
      (threads : List (Thread Task)) (n : ℕ)
      → length (in_hand threads) ≡ suc n
      → (i : ℕ) × (t : Task) × (get_elem? threads i ≡ some (sending t))
  unfolding in_hand
  busy [] n e = absurd (omega (arith, e))
  busy (receiving ∷ threads) n e = let (i, t, f) = busy threads n e in (suc i, t, f)
  busy (sending t ∷ threads) n e = (0, t, refl)

  -- The first thread receives, if there is none in hand.
  free :
      (threads : List (Thread Task))
      → 0 < length threads
      → in_hand threads ≡ []
      → get_elem? threads 0 ≡ some receiving
  unfolding in_hand
  free [] l e = absurd (omega arith)
  free (receiving ∷ threads) l e = refl
  free (sending t ∷ threads) l e = cc

  empty : (xs : List Task) → length xs ≡ 0 → xs ≡ []
  empty [] e = refl
  empty (x ∷ xs) e = absurd (omega (arith, e))

  -- Turns alone lead to a pool at rest that has accepted the same tasks.
  Rests : SendPool Task → Type 0
  Rests p =
      (events : List (Event Task)) × All IsTurn events
      × ((run p events).queue ≡ [])
      × (in_hand (run p events).threads ≡ [])
      × ((run p events).accepted ≡ p.accepted)

  Rests-turn :
      (i : ℕ) (p q : SendPool Task)
      → handle (turn i true) p ≡ q
      → q.accepted ≡ p.accepted
      → Rests q
      → Rests p
  unfolding Rests run
  Rests-turn i p q e same (events, turns, a, b, c) = (
    turn i true ∷ events,
    (refl, turns),
    ap (λ x. (run x events).queue) e ∙ a,
    ap (λ x. in_hand (run x events).threads) e ∙ b,
    ap (λ x. (run x events).accepted) e ∙ c ∙ same,
  )

  turn-advance :
      (i : ℕ) (th : Thread Task) (p : SendPool Task)
      → get_elem? p.threads i ≡ some th
      → handle (turn i true) p ≡ advance i true th p
  unfolding handle
  turn-advance i th p e = rw (e, handle) refl

  get-set :
      (threads : List (Thread Task)) (th : Thread Task)
      → 0 < length threads
      → get_elem? (set threads 0 th) 0 ≡ some th
  get-set [] th l = absurd (omega arith)
  get-set (x ∷ threads) th l = refl

  receive-one :
      (t : Task) (rest : List Task) (p : SendPool Task)
      → p.queue ≡ t ∷ rest
      → advance 0 true receiving p ≡ receive 0 (t ∷ rest) p
  unfolding advance
  receive-one t rest p e = ap (λ (q : List Task). receive 0 q p) e

  drain_queue :
      (q : List Task) (p : SendPool Task)
      → p.queue ≡ q
      → 0 < length p.threads
      → in_hand p.threads ≡ []
      → Rests p
  unfolding Rests run receive advance
  drain_queue [] p e l h = ([], tt, e, h, refl)
  drain_queue (t ∷ rest) p e l h =
      let waits = free p.threads l h in
      let p1 = receive 0 (t ∷ rest) p in
      let first = turn-advance 0 receiving p waits ∙ receive-one t rest p e in
      let second = turn-advance 0 (sending t) p1 (get-set p.threads (sending t) l) in
      let p2 = advance 0 true (sending t) p1 in
      let one =
        Split-length t (in_hand p1.threads) (in_hand p.threads) (set-sending p.threads 0 t waits) in
      let less =
        Split-length t (in_hand p1.threads) (in_hand p2.threads)
          (set-receiving p1.threads 0 t (get-set p.threads (sending t) l)) in
      Rests-turn 0 p p1 first refl (
        Rests-turn 0 p1 p2 second refl (
          drain_queue rest p2 refl
            (omega (arith, length-set p.threads 0 (sending t), length-set p1.threads 0 receiving))
            (empty (in_hand p2.threads) (omega (arith, one, less, ap length h)))))

  drain_hands :
      (n : ℕ) (p : SendPool Task) → length (in_hand p.threads) ≡ n → 0 < length p.threads → Rests p
  unfolding advance
  drain_hands zero p e l = drain_queue p.queue p refl l (empty (in_hand p.threads) e)
  drain_hands (suc n) p e l =
      let (i, t, f) = busy p.threads n e in
      let q = advance i true (sending t) p in
      let less =
        Split-length t (in_hand p.threads) (in_hand q.threads) (set-receiving p.threads i t f) in
      Rests-turn i p q (turn-advance i (sending t) p f) refl
        (drain_hands n q (omega (arith, e, less)) (omega (arith, length-set p.threads i receiving)))

  -- From every pool that an interleaving of callers and threads leads to, also with sends that did
  -- not return, turns of the threads alone, if `hub.send` returns in each, can lead to a pool whose
  -- queue is empty and whose threads all receive, and which has then sent every task that `submit`
  -- had accepted, once each, those of callers that gave up included.
  pub run-drains :
      (events : List (Event Task))
      → let p = run new events in
        (more : List (Event Task)) × All IsTurn more
        × ((run p more).queue ≡ [])
        × (in_hand (run p more).threads ≡ [])
        × Perm p.accepted (run p more).finished
  unfolding Rests
  run-drains events =
      let p = run new events in
      let h = run-keeps events new new-IsSound in
      let (more, turns, e, f, g) =
        drain_hands (length (in_hand p.threads)) p refl (omega (arith, h.pool)) in
      let q = run p more in
      let k = run-keeps more p h in
      let all : q.started ≡ p.accepted =
        sym (append-nil q.started) ∙ ap (λ (x : List Task). q.started ++ x) (sym e) ∙ k.fifo ∙ g in
      (
        more,
        turns,
        e,
        f,
        subst (λ (x : List Task). Perm x q.finished) all
            (subst (λ (x : List Task). Perm q.started x)
              (ap (λ (x : List Task). q.finished ++ x) f ∙ append-nil q.finished) k.once),
      )
