-- ===== src/Modbus/Queue.antt =====
-- `OperationQueue` of workers/modbus/types.rs: a queue of operations with a limit on those in
-- flight. The counter is atomic, so others may change it between a load and the exchange.
pub mod Fifo
pub mod Threads
mod Tests
use roboplc_middle.Prelude.{
  ℕ, zero, suc, ◌+◌, ◌-◌, ◌≤◌, ◌<◌, Bool, true, false, List, [], ◌∷◌, Option, none, some, ltb, leb,
  ◌==◌, if◌then◌else◌, length, push_back,
}

pub record OperationQueue {ℓ} (A : Type ℓ) : Type ℓ where
  pub pending : List A
  pub in_flight : ℕ
  pub max_in_flight : ℕ

abbrev pub max_cas_retries : ℕ
max_cas_retries = 100

-- What others make of the counter in an attempt: before its load, and between the load and the
-- `compare_exchange`.
pub record World : Type 0 where
  pub before_load : ℕ → ℕ → ℕ
  pub before_exchange : ℕ → ℕ → ℕ

-- Nobody else is there, as under `&mut self` or in a `Mutex`.
abbrev pub quiet : World
quiet = record { before_load = λ attempt n. n; before_exchange = λ attempt n. n }

-- The loop of `try_acquire_atomic` and of `pop_if_ready`, for the attempts that are left: the
-- counter, and whether it was raised.
unfoldable pub acquire_loop : World → ℕ → ℕ → ℕ → ℕ → ℕ × Bool
acquire_loop w max zero attempt n = (n, false)
acquire_loop w max (suc left) attempt n =
    let current = w.before_load attempt n in
    let now = w.before_exchange attempt current in
    let retry = acquire_loop w max left (suc attempt) now in
    if leb max current
    then (current, false)
    else if now == current
    then (current + 1, true)
    else retry

-- The loop of `complete`.
unfoldable pub complete_loop : World → ℕ → ℕ → ℕ → ℕ
complete_loop w zero attempt n = n
complete_loop w (suc left) attempt n =
    let current = w.before_load attempt n in
    let now = w.before_exchange attempt current in
    let retry = complete_loop w left (suc attempt) now in
    if current == 0 then current else if now == current then current - 1 else retry

module _ {ℓ} {A : Type ℓ} where
  unfoldable pub new : ℕ → OperationQueue A
  new max = record { pending = []; in_flight = 0; max_in_flight = max }

  unfoldable pub push : OperationQueue A → A → OperationQueue A
  push q op = record q { pending = push_back q.pending op }

  unfoldable pub try_acquire_atomic : World → OperationQueue A → OperationQueue A × Bool
  try_acquire_atomic w q =
      let (n, acquired) = acquire_loop w q.max_in_flight max_cas_retries 0 q.in_flight in
      (record q { in_flight = n }, acquired)

  -- `pop_front` after the counter was raised; an empty queue gives the capacity back.
  abbrev pub pop_front : List A → ℕ → ℕ → OperationQueue A × Option A
  pop_front [] n max = (record { pending = []; in_flight = n - 1; max_in_flight = max }, none)
  pop_front (op ∷ ops) n max =
      (record { pending = ops; in_flight = n; max_in_flight = max }, some op)

  unfoldable pub pop_if_ready : World → OperationQueue A → OperationQueue A × Option A
  pop_if_ready w q =
      let (n, acquired) = acquire_loop w q.max_in_flight max_cas_retries 0 q.in_flight in
      if acquired then pop_front q.pending n q.max_in_flight else (record q { in_flight = n }, none)

  unfoldable pub complete : World → OperationQueue A → OperationQueue A
  complete w q = record q { in_flight = complete_loop w max_cas_retries 0 q.in_flight }

  unfoldable pub in_flight_count : OperationQueue A → ℕ
  in_flight_count q = q.in_flight

  unfoldable pub can_start : OperationQueue A → Bool
  can_start q = ltb q.in_flight q.max_in_flight

  unfoldable pub pending_count : OperationQueue A → ℕ
  pending_count q = length q.pending
