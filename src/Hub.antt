-- ===== src/Hub.antt =====
-- The hub as the workers use it: the sends with a time limit of hub_protection.rs, over an
-- interface for the hub, the channels of the answers and the clock.
pub mod Sample
pub mod Threads
mod Tests
use roboplc_middle.Prelude.{ℕ, ◌≤◌, arith, Bool, true, false, List, ◌++◌}
use roboplc_middle.Prelude.Text.{codes}
use roboplc_middle.Correlation.{next_correlation_id}
use roboplc_middle.Messages.{Message, DeviceResponseData}
use roboplc_middle.Modbus.Io.{Outcome, ok, err}

-- What `recv_timeout` gives.
pub data Received (Value : Type 0) : Type 0 where
  answered : DeviceResponseData Value → Received Value
  timed_out disconnected : Received Value

-- The state is that of the hub, the channels, the other workers and the clock; it moves when a
-- worker sends or waits.
pub record Hub (Value : Type 0) : Type 1 where
  pub State : Type 0
  -- `SystemTime::now` since the epoch and `Instant::now`, in microseconds
  pub now : State → ℕ
  pub instant : State → ℕ
  -- `GLOBAL_CORRELATION_COUNTER`, which all workers use
  pub counter : State → ℕ
  pub set_counter : ℕ → State → State
  -- `try_send` to the bounded queue of the send pool, whose error is given as text
  pub try_send : Message Value → State → State × Outcome (Unit {0})
  -- whether the pool reports the completion within a time in milliseconds
  pub completed : ℕ → State → State × Bool
  -- `recv_timeout` on the channel of a request, with a time in milliseconds
  pub receive : ℕ → ℕ → State → State × Received Value
  -- an `Instant` is never before an earlier one
  pub instant-set_counter : (c : ℕ) (s : State) → instant s ≤ instant (set_counter c s)
  pub instant-try_send : (m : Message Value) (s : State) → instant s ≤ instant (try_send m s).0
  pub instant-completed : (t : ℕ) (s : State) → instant s ≤ instant (completed t s).0
  pub instant-receive : (id t : ℕ) (s : State) → instant s ≤ instant (receive id t s).0

abbrev pub default_hub_send_timeout : ℕ
default_hub_send_timeout = 2000

module _ {Value : Type 0} (hub : Hub Value) where
  -- `next_correlation_id`
  unfoldable pub take_id : hub.State → hub.State × ℕ
  unfolding next_correlation_id
  take_id s =
      let (counter, id) = next_correlation_id (hub.counter s) in (hub.set_counter counter s, id)

  abbrev prefixed : List ℕ → hub.State × Outcome (Unit {0}) → hub.State × Outcome (Unit {0})
  prefixed p (s, ok u) = (s, ok u)
  prefixed p (s, err e) = (s, err (p ++ e))

  -- `HubSendPool::submit`
  unfoldable pub submit : Message Value → hub.State → hub.State × Outcome (Unit {0})
  submit message s = prefixed (codes "Failed to submit Hub send task: ") (hub.try_send message s)

  abbrev waited : hub.State × Bool → hub.State × Outcome (Unit {0})
  waited (s, true) = (s, ok tt)
  waited (s, false) = (s, err (codes "Hub send timeout - system overloaded"))

  -- What follows `submit`: the wait for the completion.
  abbrev pub submitted : ℕ → hub.State × Outcome (Unit {0}) → hub.State × Outcome (Unit {0})
  submitted timeout (s, err e) = (s, err (codes "Hub send queue full: " ++ e))
  submitted timeout (s, ok _) = waited (hub.completed timeout s)

  unfoldable pub send_to_hub_with_protection :
      Message Value → ℕ → hub.State → hub.State × Outcome (Unit {0})
  unfolding submit
  send_to_hub_with_protection message timeout s = submitted timeout (submit message s)

  prefixed_instant :
      (p : List ℕ) (k : ℕ) (r : hub.State × Outcome (Unit {0}))
      → k ≤ hub.instant r.0
      → k ≤ hub.instant (prefixed p r).0
  prefixed_instant p k (s, ok u) h = h
  prefixed_instant p k (s, err e) h = h

  waited_instant :
      (k : ℕ) (r : hub.State × Bool) → k ≤ hub.instant r.0 → k ≤ hub.instant (waited r).0
  waited_instant k (s, true) h = h
  waited_instant k (s, false) h = h

  submitted_instant :
      (timeout k : ℕ) (r : hub.State × Outcome (Unit {0}))
      → k ≤ hub.instant r.0
      → k ≤ hub.instant (submitted timeout r).0
  submitted_instant timeout k (s, ok u) h =
      waited_instant k (hub.completed timeout s) (omega (arith, hub.instant-completed timeout s))
  submitted_instant timeout k (s, err e) h = h

  -- Time does not go back in a send.
  pub send_instant :
      (m : Message Value) (timeout : ℕ) (s : hub.State)
      → hub.instant s ≤ hub.instant (send_to_hub_with_protection m timeout s).0
  unfolding send_to_hub_with_protection submit
  send_instant m timeout s = submitted_instant timeout (hub.instant s) _ (
      prefixed_instant (codes "Failed to submit Hub send task: ") (hub.instant s) (hub.try_send m s)
        (hub.instant-try_send m s))
