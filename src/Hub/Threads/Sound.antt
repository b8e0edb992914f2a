-- ===== src/Hub/Threads/Sound.antt =====
-- What holds of the send pool at every interleaving (hub_protection.rs).
use mathlib.Core.List.{Perm, perm_middle, append_assoc, append-nil}
use mathlib.Core.List.Perm
use mathlib.Core.Path.{subst}
use roboplc_middle.Prelude.{
  ℕ, zero, suc, ◌+◌, ◌≤◌, ◌≡◌, refl, sym, ap, ◌∙◌, Bool, true, false, List, [], ◌∷◌, ◌++◌, arith,
  length, length-append, length-set, push_back, some, leb, get_elem?, set, inl, inr, Bool-cases,
  Option-cases,
}
use roboplc_middle.Hub.Threads.{
  hub_send_pool_size, hub_send_queue_capacity, Thread, receiving, sending, SendPool, Event,
  submitted, turn, new, submit, receive, advance, handle, run,
}

module _ {Task : Type 0} where
  -- The tasks that threads are sending.
  unfoldable pub in_hand : List (Thread Task) → List Task
  in_hand [] = []
  in_hand (receiving ∷ threads) = in_hand threads
  in_hand (sending t ∷ threads) = t ∷ in_hand threads

  in_hand-le : (threads : List (Thread Task)) → length (in_hand threads) ≤ length threads
  unfolding in_hand
  in_hand-le [] = omega arith
  in_hand-le (receiving ∷ threads) = omega (arith, in_hand-le threads)
  in_hand-le (sending t ∷ threads) = omega (arith, in_hand-le threads)

  -- One list has a task that the other lacks.
  pub Split : Task → List Task → List Task → Type 0
  Split t xs ys =
      (before : List Task) × (after : List Task) × (xs ≡ before ++ t ∷ after)
      × (ys ≡ before ++ after)

  Split-cons : (u t : Task) (xs ys : List Task) → Split t xs ys → Split t (u ∷ xs) (u ∷ ys)
  unfolding Split
  Split-cons u t xs ys (before, after, e, f) =
      (u ∷ before, after, ap (λ (l : List Task). u ∷ l) e, ap (λ (l : List Task). u ∷ l) f)

  pub Split-Perm : (t : Task) (xs ys : List Task) → Split t xs ys → Perm xs (t ∷ ys)
  unfolding Split
  Split-Perm t xs ys (before, after, e, f) = rw (e, f) (perm_middle before after)

  pub Split-length : (t : Task) (xs ys : List Task) → Split t xs ys → length xs ≡ suc (length ys)
  unfolding Split
  Split-length t xs ys (before, after, e, f) =
      rw (e, f) (omega (arith, length-append before (t ∷ after), length-append before after))

  pub set-sending :
      (threads : List (Thread Task)) (i : ℕ) (t : Task)
      → get_elem? threads i ≡ some receiving
      → Split t (in_hand (set threads i (sending t))) (in_hand threads)
  unfolding in_hand Split
  set-sending [] i t e = cc
  set-sending (receiving ∷ threads) zero t e = ([], in_hand threads, refl, refl)
  set-sending (sending u ∷ threads) zero t e = cc
  set-sending (receiving ∷ threads) (suc i) t e = set-sending threads i t e
  set-sending (sending u ∷ threads) (suc i) t e = Split-cons u t _ _ (set-sending threads i t e)

  pub set-receiving :
      (threads : List (Thread Task)) (i : ℕ) (t : Task)
      → get_elem? threads i ≡ some (sending t)
      → Split t (in_hand threads) (in_hand (set threads i receiving))
  unfolding in_hand Split
  set-receiving [] i t e = cc
  set-receiving (receiving ∷ threads) zero t e = cc
  set-receiving (sending u ∷ threads) zero t e =
      let same : u ≡ t = cc in ([], in_hand threads, ap (λ x. x ∷ in_hand threads) same, refl)
  set-receiving (receiving ∷ threads) (suc i) t e = set-receiving threads i t e
  set-receiving (sending u ∷ threads) (suc i) t e = Split-cons u t _ _ (set-receiving threads i t e)

  to_front : (t : Task) (xs : List Task) → Perm (push_back xs t) (t ∷ xs)
  to_front t xs =
      subst (λ (ys : List Task). Perm (push_back xs t) (t ∷ ys)) (append-nil xs) (perm_middle xs [])

  pub record IsSound (p : SendPool Task) : Type 0 where
    -- the capacity of the channel, and the threads of the pool
    pub room : length p.queue ≤ hub_send_queue_capacity
    pub pool : length p.threads ≡ hub_send_pool_size
    -- what was received and what waits is what was accepted, in order
    pub fifo : p.started ++ p.queue ≡ p.accepted
    -- what was received is sent or in hand, each once
    pub once : Perm p.started (p.finished ++ in_hand p.threads)
    pub number : length p.started ≡ length p.finished + length (in_hand p.threads)

  pub new-IsSound : IsSound new
  unfolding new in_hand
  new-IsSound = record {
    room = omega arith;
    pool = refl;
    fifo = refl;
    once = Perm.refl [];
    number = refl;
  }

  submit-IsSound : (t : Task) (p : SendPool Task) → IsSound p → IsSound (submit t p).0
  unfolding submit
  submit-IsSound t p h = elim (Bool-cases (leb 512 (length p.queue))) [
    | inl full ↦ rw full h
    | inr free ↦ rw free (record {
      room = ground (arith, length-append p.queue (t ∷ []));
      pool = h.pool;
      fifo = sym (append_assoc p.started p.queue (t ∷ [])) ∙ ap (λ l. push_back l t) h.fifo;
      once = h.once;
      number = h.number;
    })
  ]

  receive-IsSound :
      (i : ℕ) (q : List Task) (p : SendPool Task)
      → get_elem? p.threads i ≡ some receiving
      → p.queue ≡ q
      → IsSound p
      → IsSound (receive i q p)
  unfolding receive
  receive-IsSound i [] p e f h = h
  receive-IsSound i (t ∷ rest) p e f h =
      let split = set-sending p.threads i t e in
      let hands = in_hand (set p.threads i (sending t)) in
      record {
        room = omega (arith, h.room, ap length f);
        pool = length-set p.threads i (sending t) ∙ h.pool;
        fifo =
            append_assoc p.started (t ∷ []) rest
            ∙ ap (λ (x : List Task). p.started ++ x) (sym f)
            ∙ h.fifo;
        once = Perm.trans (Perm.append_right (t ∷ []) h.once) (
            rw (append_assoc p.finished (in_hand p.threads) (t ∷ [])) (
              Perm.append_left p.finished (
                Perm.trans (to_front t (in_hand p.threads))
                  (Perm.symm (Split-Perm t hands (in_hand p.threads) split)))));
        number = omega (
          arith,
          h.number,
          length-append p.started (t ∷ []),
          Split-length t hands (in_hand p.threads) split,
        );
      }

  finish-IsSound :
      (i : ℕ) (t : Task) (p : SendPool Task)
      → get_elem? p.threads i ≡ some (sending t)
      → IsSound p
      → IsSound (advance i true (sending t) p)
  unfolding advance
  finish-IsSound i t p e h =
      let split = set-receiving p.threads i t e in
      let hands = in_hand (set p.threads i receiving) in
      record {
        room = h.room;
        pool = length-set p.threads i receiving ∙ h.pool;
        fifo = h.fifo;
        once = rw (append_assoc p.finished (t ∷ []) hands) (
            Perm.trans h.once
              (Perm.append_left p.finished (Split-Perm t (in_hand p.threads) hands split)));
        number = omega (
          arith,
          h.number,
          length-append p.finished (t ∷ []),
          Split-length t (in_hand p.threads) hands split,
        );
      }

  advance-IsSound :
      (i : ℕ) (returns : Bool) (th : Thread Task) (p : SendPool Task)
      → get_elem? p.threads i ≡ some th
      → IsSound p
      → IsSound (advance i returns th p)
  unfolding advance
  advance-IsSound i returns receiving p e h = receive-IsSound i p.queue p e refl h
  advance-IsSound i true (sending t) p e h = finish-IsSound i t p e h
  advance-IsSound i false (sending t) p e h = h

  handle-IsSound : (e : Event Task) (p : SendPool Task) → IsSound p → IsSound (handle e p)
  unfolding handle
  handle-IsSound (submitted t) p h = submit-IsSound t p h
  handle-IsSound (turn i returns) p h = elim (Option-cases (get_elem? p.threads i)) [
    | inl e ↦ rw (e, handle) h
    | inr (th, e) ↦ rw (e, handle) (advance-IsSound i returns th p e h)
  ]

  pub run-keeps :
      (events : List (Event Task)) (p : SendPool Task) → IsSound p → IsSound (run p events)
  unfolding run
  run-keeps [] p h = h
  run-keeps (e ∷ events) p h = run-keeps events (handle e p) (handle-IsSound e p h)

  pub backlog :
      (p : SendPool Task)
      → IsSound p
      → length p.accepted ≤ length p.finished + hub_send_pool_size + hub_send_queue_capacity
  backlog p h = omega (
    arith,
    h.room,
    h.pool,
    h.number,
    in_hand-le p.threads,
    length-append p.started p.queue,
    ap length h.fifo,
  )

  -- At every interleaving of callers and threads, also with sends that never return, the queue stays
  -- within its capacity and the pool has its 16 threads; the tasks are received in the order in which
  -- they were accepted; each that was received is sent or in the hands of a thread, once; and at most
  -- 528 accepted tasks are not sent yet.
  pub run-IsSound :
      (events : List (Event Task))
      → let p = run new events in
        IsSound p
        × (length p.accepted ≤ length p.finished + hub_send_pool_size + hub_send_queue_capacity)
  run-IsSound events = let h = run-keeps events new new-IsSound in (h, backlog (run new events) h)
