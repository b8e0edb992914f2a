-- ===== src/Hub/Threads.antt =====
-- The send pool of hub_protection.rs: callers that submit and the threads of the pool, which events
-- interleave. The channel between them is crossbeam's: `try_send` refuses a task if the channel is
-- full, and `recv` waits if it is empty.
pub mod Sound
pub mod Drain
use roboplc_middle.Prelude.{
  ℕ, Bool, true, false, List, [], ◌∷◌, none, some, leb, if◌then◌else◌, length, push_back, get_elem?,
  set, replicate,
}

abbrev pub hub_send_pool_size : ℕ
hub_send_pool_size = 16

abbrev pub hub_send_queue_capacity : ℕ
hub_send_queue_capacity = 512

-- Where a thread stands: in `recv`, or in `hub.send` of a task.
pub data Thread (Task : Type 0) : Type 0 where
  receiving : Thread Task
  sending : Task → Thread Task

-- The channel and the threads; and, for the statements only, the tasks that `submit` accepted, those
-- that threads received and those that were sent, in order.
pub record SendPool (Task : Type 0) : Type 0 where
  pub queue : List Task
  pub threads : List (Thread Task)
  pub accepted : List Task
  pub started : List Task
  pub finished : List Task

-- A caller submits a task; or a thread gets a turn, in which `hub.send`, if it stands there, returns
-- or goes on to wait for the hub.
pub data Event (Task : Type 0) : Type 0 where
  submitted : Task → Event Task
  turn : ℕ → Bool → Event Task

module _ {Task : Type 0} where
  unfoldable pub new : SendPool Task
  new = record {
    queue = [];
    threads = replicate hub_send_pool_size receiving;
    accepted = [];
    started = [];
    finished = [];
  }

  -- `try_send` in `submit`: whether the task was accepted. It never waits.
  unfoldable pub submit : Task → SendPool Task → SendPool Task × Bool
  submit t p =
      if leb hub_send_queue_capacity (length p.queue)
      then (p, false)
      else (record p { queue = push_back p.queue t; accepted = push_back p.accepted t }, true)

  -- `recv` of thread `i`.
  unfoldable pub receive : ℕ → List Task → SendPool Task → SendPool Task
  receive i [] p = p
  receive i (t ∷ rest) p = record p {
    queue = rest;
    threads = set p.threads i (sending t);
    started = push_back p.started t;
  }

  -- The loop of thread `i`, from where it stands to where it may wait next.
  unfoldable pub advance : ℕ → Bool → Thread Task → SendPool Task → SendPool Task
  unfolding receive
  advance i returns receiving p = receive i p.queue p
  advance i false (sending t) p = p
  advance i true (sending t) p = record p {
    threads = set p.threads i receiving;
    finished = push_back p.finished t;
  }

  unfoldable pub handle : Event Task → SendPool Task → SendPool Task
  unfolding submit advance
  handle (submitted t) p = (submit t p).0
  handle (turn i returns) p = elim (get_elem? p.threads i) [
    | none ↦ p
    | some thread ↦ advance i returns thread p
  ]

  unfoldable pub run : SendPool Task → List (Event Task) → SendPool Task
  unfolding handle
  run p [] = p
  run p (e ∷ events) = run (handle e p) events
