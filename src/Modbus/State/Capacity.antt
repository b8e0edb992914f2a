-- ===== src/Modbus/State/Capacity.antt =====
-- The capacity for operations in flight (workers/modbus/state.rs).
use roboplc_middle.Prelude.{
  ◌+◌, ◌-◌, ◌≡◌, refl, ap, ◌∙◌, arith, Bool, true, false, List, [], ◌∷◌, none, some, if◌then◌else◌,
  push_back,
}
use roboplc_middle.Modbus.Queue.{OperationQueue, quiet, push, pop_if_ready, can_start}
use roboplc_middle.Modbus.Queue.Fifo.{quiet_calls, bounded_pop}
use roboplc_middle.Modbus.State.{
  ModbusWorkerState, is_some, try_acquire_operation, try_acquire_operation_atomic,
  complete_operation,
}

abbrev Units : Type 0
Units = OperationQueue (Unit {0})

snoc : (ps : List (Unit {0})) → push_back ps tt ≡ tt ∷ ps
snoc [] = refl
snoc (p ∷ ps) = ap (λ (qs : List (Unit {0})). p ∷ qs) (snoc ps)

-- What `try_acquire_operation` makes of the queue.
abbrev pub taken : OperationQueue (Unit {0}) → OperationQueue (Unit {0})
unfolding can_start
taken q =
    if can_start q
    then record q { in_flight = q.in_flight + 1 }
    else record q { pending = push_back q.pending tt }

is_some-if : (b : Bool) → is_some (if b then some (tt {0}) else none) ≡ b
is_some-if true = refl
is_some-if false = refl

push_pop :
    (q : OperationQueue (Unit {0}))
    → pop_if_ready quiet (push q tt) ≡ (taken q, if can_start q then some tt else none)
unfolding push taken can_start bounded_pop
push_pop q = let (e, _, _) = quiet_calls (push q tt) in e ∙ rw (snoc q.pending) (ground arith)

module _ {Client : Type 0} where
  pub complete_operation-restores :
      (q : OperationQueue (Unit {0})) (w : ModbusWorkerState Client)
      → w.operation_queue ≡ record q { in_flight = q.in_flight + 1 }
      → (complete_operation w).operation_queue ≡ q
  unfolding complete_operation
  complete_operation-restores q w h =
      let (_, _, back) = quiet_calls w.operation_queue in
      let after : q.in_flight + 1 - 1 ≡ q.in_flight = omega arith in
      back
      ∙ ap (λ (r : OperationQueue (Unit {0})). record r { in_flight = r.in_flight - 1 }) h
      ∙ ap (λ n. record q { in_flight = n }) after

  -- The two ways to acquire capacity answer alike, true exactly if a unit is free, and then take
  -- one; a refused `try_acquire_operation` leaves a further pending entry behind, where the atomic
  -- one changes nothing. `complete_operation` after a granted one gives the worker of before.
  pub try_acquire-both :
      (w : ModbusWorkerState Client)
      → let q = w.operation_queue in
        (try_acquire_operation w ≡ (record w { operation_queue = taken q }, can_start q))
        × (try_acquire_operation_atomic w ≡ (
          record w {
            operation_queue = record q {
              in_flight = if can_start q then q.in_flight + 1 else q.in_flight;
            };
          },
          can_start q,
        ))
        × (complete_operation
              (record w { operation_queue = record q { in_flight = q.in_flight + 1 } })
            ≡ w)
  unfolding try_acquire_operation try_acquire_operation_atomic complete_operation
  try_acquire-both w =
      let q = w.operation_queue in
      let (_, acquired, completed) = quiet_calls q in
      let (_, _, back) = quiet_calls (record q { in_flight = q.in_flight + 1 }) in
      let after : q.in_flight + 1 - 1 ≡ q.in_flight = omega arith in
      (
        ap (λ r. (record w { operation_queue = r.0 }, is_some r.1)) (push_pop q)
            ∙ ap (λ b. (record w { operation_queue = taken q }, b)) (is_some-if (can_start q)),
        ap (λ r. (record w { operation_queue = r.0 }, r.1)) acquired,
        ap (λ r. record w { operation_queue = r }) back
            ∙ ap (λ n. record w { operation_queue = record q { in_flight = n } }) after,
      )
