-- ===== src/Modbus/Queue/Tests.antt =====
-- Runs of the operation queue, and the theorems at concrete inputs.
use roboplc_middle.Prelude.{ℕ, ◌+◌, ◌≤◌, ◌≡◌, refl, List, [], ◌∷◌, ◌++◌}
use roboplc_middle.Modbus.Queue.{
  OperationQueue, quiet, acquire_loop, new, push, pop_if_ready, complete, complete_loop,
}
use roboplc_middle.Modbus.Queue.Fifo.{
  Call, pushes, pops, completes, call, calls, pushed, Keeps, calls-fifo,
}
use roboplc_middle.Modbus.Queue.Threads.{run, start, at_work, holders, run-at_work}

abbrev one_slot : List (Call ℕ)
one_slot = pushes 1 ∷ pushes 2 ∷ pops quiet ∷ pops quiet ∷ completes quiet ∷ pops quiet ∷ []

-- The second pop finds no capacity until the first operation completes.
popped_in_order : (calls (new 1) one_slot).1 ≡ 1 ∷ 2 ∷ []
unfolding calls call new push pop_if_ready complete acquire_loop complete_loop
popped_in_order = refl

calls-fifo_example :
    let (q, popped) = calls (new 1) one_slot in
    popped ++ q.pending ≡ (new {A = ℕ} 1).pending ++ pushed one_slot
calls-fifo_example = calls-fifo (new 1) one_slot

quiet-Keeps : Keeps 1 quiet
quiet-Keeps = record { load_kept = λ a n h. h; exchange_kept = λ a n h. h }

abbrev waiting : OperationQueue ℕ
waiting = record { pending = 5 ∷ []; in_flight = 2; max_in_flight = 3 }

-- Two threads compete for one unit: the second one's exchange fails, and it finds the limit.
race : (run (start 1 2) (0 ∷ 1 ∷ 0 ∷ 1 ∷ 0 ∷ 1 ∷ 1 ∷ [])).in_flight ≡ 1
unfolding run start
race = refl

run-at_work_example :
    let s = run (start 1 2) (0 ∷ 1 ∷ 0 ∷ 1 ∷ 0 ∷ 1 ∷ 1 ∷ []) in
    (at_work s.threads ≤ 1) × (s.in_flight ≤ 1) × (s.in_flight ≡ holders s.threads + s.lost)
run-at_work_example = run-at_work 1 2 (0 ∷ 1 ∷ 0 ∷ 1 ∷ 0 ∷ 1 ∷ 1 ∷ [])
