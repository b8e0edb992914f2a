-- ===== src/Modbus/Queue/Fifo.antt =====
-- The operations of `OperationQueue` (workers/modbus/types.rs), one after the other.
use mathlib.Core.Path.{subst}
use mathlib.Core.List.{append_assoc, append-nil}
use roboplc_middle.Prelude.{
  ℕ, zero, suc, ◌+◌, ◌-◌, ◌≤◌, ◌≡◌, refl, sym, ap, ◌∙◌, arith, true, false, List, [], ◌∷◌, ◌++◌,
  Option, none, some, leb, if◌then◌else◌, All, Bool-cases, inl, inr,
}
use roboplc_middle.Modbus.Queue.{
  OperationQueue, World, quiet, max_cas_retries, acquire_loop, complete_loop, push,
  try_acquire_atomic, pop_front, pop_if_ready, complete, can_start,
}

-- A world that keeps to the limit.
pub record Keeps (max : ℕ) (w : World) : Type 0 where
  pub load_kept : (attempt n : ℕ) → n ≤ max → w.before_load attempt n ≤ max
  pub exchange_kept : (attempt n : ℕ) → n ≤ max → w.before_exchange attempt n ≤ max

-- A call on the queue, with the world around it.
pub data Call {ℓ} (A : Type ℓ) : Type ℓ where
  pushes : A → Call A
  pops : World → Call A
  acquires : World → Call A
  completes : World → Call A

acquire_loop-le :
    (w : World) (max left attempt n : ℕ)
    → Keeps max w
    → n ≤ max
    → (acquire_loop w max left attempt n).0 ≤ max
unfolding acquire_loop
acquire_loop-le w max zero attempt n k h = h
acquire_loop-le w max (suc left) attempt n k h =
    let current = w.before_load attempt n in
    let c = k.load_kept attempt n h in
    let e = k.exchange_kept attempt current c in
    ground
      (arith, c, acquire_loop-le w max left (suc attempt) (w.before_exchange attempt current) k e)

complete_loop-le :
    (w : World) (max left attempt n : ℕ)
    → Keeps max w
    → n ≤ max
    → complete_loop w left attempt n ≤ max
unfolding complete_loop
complete_loop-le w max zero attempt n k h = h
complete_loop-le w max (suc left) attempt n k h =
    let current = w.before_load attempt n in
    let c = k.load_kept attempt n h in
    let e = k.exchange_kept attempt current c in
    ground
      (arith, c, complete_loop-le w max left (suc attempt) (w.before_exchange attempt current) k e)

acquire_loop-quiet :
    (max left attempt n : ℕ)
    → acquire_loop quiet max (suc left) attempt n
      ≡ (if leb max n then (n, false) else (n + 1, true))
unfolding acquire_loop
acquire_loop-quiet max left attempt n = ground arith

complete_loop-quiet : (left attempt n : ℕ) → complete_loop quiet (suc left) attempt n ≡ n - 1
unfolding complete_loop
complete_loop-quiet left attempt n = ground arith

module _ {ℓ} {A : Type ℓ} where
  -- The queue after a call, and what the call popped.
  unfoldable pub call : OperationQueue A → Call A → OperationQueue A × Option A
  unfolding push pop_if_ready try_acquire_atomic complete
  call q (pushes op) = (push q op, none)
  call q (pops w) = pop_if_ready w q
  call q (acquires w) = ((try_acquire_atomic w q).0, none)
  call q (completes w) = (complete w q, none)

  abbrev pub listed : Option A → List A
  listed none = []
  listed (some op) = op ∷ []

  -- The queue after some calls, and all that they popped.
  unfoldable pub calls : OperationQueue A → List (Call A) → OperationQueue A × List A
  calls q [] = (q, [])
  calls q (c ∷ cs) =
      let (q', op) = call q c in let (q'', ops) = calls q' cs in (q'', listed op ++ ops)

  abbrev pub pushed : List (Call A) → List A
  pushed [] = []
  pushed (pushes op ∷ cs) = op ∷ pushed cs
  pushed (pops w ∷ cs) = pushed cs
  pushed (acquires w ∷ cs) = pushed cs
  pushed (completes w ∷ cs) = pushed cs

  abbrev pub CallKeeps : ℕ → Call A → Type 0
  CallKeeps max (pushes op) = Unit {0}
  CallKeeps max (pops w) = Keeps max w
  CallKeeps max (acquires w) = Keeps max w
  CallKeeps max (completes w) = Keeps max w

  pop_front-fifo :
      (ops : List A) (n max : ℕ) → let (q, op) = pop_front ops n max in listed op ++ q.pending ≡ ops
  pop_front-fifo [] n max = refl
  pop_front-fifo (op ∷ ops) n max = refl

  pop_if_ready-fifo :
      (w : World) (q : OperationQueue A)
      → listed (pop_if_ready w q).1 ++ (pop_if_ready w q).0.pending ≡ q.pending
  unfolding pop_if_ready
  pop_if_ready-fifo w q =
      let r = acquire_loop w q.max_in_flight max_cas_retries 0 q.in_flight in
      elim (Bool-cases r.1) [
        | inl acquired ↦ rw acquired (pop_front-fifo q.pending r.0 q.max_in_flight)
        | inr full ↦ rw full refl
      ]

  call-fifo :
      (q : OperationQueue A) (c : Call A) (cs : List (Call A))
      → let (q', op) = call q c in
        listed op ++ (q'.pending ++ pushed cs) ≡ q.pending ++ pushed (c ∷ cs)
  unfolding call
  call-fifo q (pushes op) cs = append_assoc q.pending (op ∷ []) (pushed cs)
  call-fifo q (pops w) cs =
      sym (append_assoc (listed (pop_if_ready w q).1) (pop_if_ready w q).0.pending (pushed cs))
      ∙ ap (λ (ops : List A). ops ++ pushed cs) (pop_if_ready-fifo w q)
  call-fifo q (acquires w) cs = refl
  call-fifo q (completes w) cs = refl

  -- First in, first out, whatever others do to the counter: over any calls, what was popped and
  -- what is still pending are, in this order, what was pending before and what was pushed.
  pub calls-fifo :
      (q : OperationQueue A) (cs : List (Call A))
      → let (q', popped) = calls q cs in popped ++ q'.pending ≡ q.pending ++ pushed cs
  unfolding calls
  calls-fifo q [] = sym (append-nil q.pending)
  calls-fifo q (c ∷ cs) =
      let (q', op) = call q c in
      let (q'', ops) = calls q' cs in
      append_assoc (listed op) ops q''.pending
      ∙ ap (λ (rest : List A). listed op ++ rest) (calls-fifo q' cs)
      ∙ call-fifo q c cs

  abbrev pub WithinLimit : OperationQueue A → Type 0
  WithinLimit q = q.in_flight ≤ q.max_in_flight

  pop_front-WithinLimit :
      (ops : List A) (n max : ℕ)
      → n ≤ max
      → WithinLimit (pop_front ops n max).0 × ((pop_front ops n max).0.max_in_flight ≡ max)
  pop_front-WithinLimit [] n max h = (omega arith, refl)
  pop_front-WithinLimit (op ∷ ops) n max h = (h, refl)

  call-WithinLimit :
      (q : OperationQueue A) (c : Call A)
      → WithinLimit q
      → CallKeeps q.max_in_flight c
      → WithinLimit (call q c).0 × ((call q c).0.max_in_flight ≡ q.max_in_flight)
  unfolding call push try_acquire_atomic pop_if_ready complete
  call-WithinLimit q (pushes op) h k = (h, refl)
  call-WithinLimit q (pops w) h k =
      let le = acquire_loop-le w q.max_in_flight max_cas_retries 0 q.in_flight k h in
      let r = acquire_loop w q.max_in_flight max_cas_retries 0 q.in_flight in
      elim (Bool-cases r.1) [
        | inl acquired ↦ rw acquired (pop_front-WithinLimit q.pending r.0 q.max_in_flight le)
        | inr full ↦ rw full (le, refl)
      ]
  call-WithinLimit q (acquires w) h k =
      (acquire_loop-le w q.max_in_flight max_cas_retries 0 q.in_flight k h, refl)
  call-WithinLimit q (completes w) h k =
      (complete_loop-le w q.max_in_flight max_cas_retries 0 q.in_flight k h, refl)

  -- If nobody else raises the counter above the limit, no calls do, on any branch of theirs.
  pub calls-WithinLimit :
      (q : OperationQueue A) (cs : List (Call A))
      → WithinLimit q
      → All (CallKeeps q.max_in_flight) cs
      → WithinLimit (calls q cs).0
  unfolding calls
  calls-WithinLimit q [] h k = h
  calls-WithinLimit q (c ∷ cs) h (k, ks) =
      let (h', same) = call-WithinLimit q c h k in
      calls-WithinLimit (call q c).0 cs h' (subst (λ m. All (CallKeeps m) cs) (sym same) ks)

  -- The queue as a bounded counter and a list, when nobody interferes.
  unfoldable pub bounded_pop : OperationQueue A → OperationQueue A × Option A
  bounded_pop q = elim q.pending [
    | [] ↦ (q, none)
    | op ∷ ops ↦
        if leb q.max_in_flight q.in_flight
        then (q, none)
        else (record q { pending = ops; in_flight = q.in_flight + 1 }, some op)
  ]

  quiet_pop :
      (ops : List A) (n max : ℕ)
      → let q : OperationQueue A = record { pending = ops; in_flight = n; max_in_flight = max } in
        pop_if_ready quiet q ≡ bounded_pop q
  unfolding pop_if_ready bounded_pop
  quiet_pop [] n max = ground (arith, acquire_loop-quiet max 99 0 n)
  quiet_pop (op ∷ ops) n max = ground (arith, acquire_loop-quiet max 99 0 n)

  quiet_acquire :
      (q : OperationQueue A)
      → try_acquire_atomic quiet q ≡ (
        record q { in_flight = if can_start q then q.in_flight + 1 else q.in_flight },
        can_start q,
      )
  unfolding try_acquire_atomic can_start
  quiet_acquire q = ground (arith, acquire_loop-quiet q.max_in_flight 99 0 q.in_flight)

  quiet-complete :
      (q : OperationQueue A) → complete quiet q ≡ record q { in_flight = q.in_flight - 1 }
  unfolding complete
  quiet-complete q = rw (complete_loop-quiet 99 0 q.in_flight) refl

  -- With nobody else there, `pop_if_ready` hands out the first pending operation and takes one
  -- unit of capacity if there is an operation and a free unit, and else changes nothing;
  -- `try_acquire_atomic` takes a unit if `can_start` says that one is free; `complete` gives one
  -- back, and changes nothing at zero.
  pub quiet_calls :
      (q : OperationQueue A)
      → (pop_if_ready quiet q ≡ bounded_pop q)
        × (try_acquire_atomic quiet q ≡ (
          record q { in_flight = if can_start q then q.in_flight + 1 else q.in_flight },
          can_start q,
        ))
        × (complete quiet q ≡ record q { in_flight = q.in_flight - 1 })
  quiet_calls q =
      (quiet_pop q.pending q.in_flight q.max_in_flight, quiet_acquire q, quiet-complete q)
