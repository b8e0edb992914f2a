-- ===== src/Hub/Sample.antt =====
-- A hub for tests: a clock in microseconds, the counter of the ids and the answers to come. It shows
-- that the interface's laws can hold.
use roboplc_middle.Prelude.{ℕ, ◌+◌, ◌≤◌, arith, true, List, [], ◌∷◌}
use roboplc_middle.Prelude.Sample.{Tree}
use roboplc_middle.Modbus.Io.{ok}
use roboplc_middle.Hub.{Hub, Received, timed_out}

abbrev pub Desk : Type 0
Desk = ℕ × ℕ × List (Received Tree)

abbrev pub next_answer : Desk → Desk × Received Tree
next_answer (t, c, []) = ((t + 2000000, c, []), timed_out)
next_answer (t, c, r ∷ rs) = ((t + 1500, c, rs), r)

pub later : (t k : ℕ) → t ≤ t + k
later t k = omega arith

pub at_once : (t : ℕ) → t ≤ t
at_once t = omega arith

pub answer_later : (s : Desk) → s.0 ≤ (next_answer s).0.0
answer_later (t, c, []) = omega arith
answer_later (t, c, r ∷ rs) = omega arith

abbrev pub sample_hub : Hub Tree
sample_hub = record {
  State = Desk;
  now = λ s. s.0;
  instant = λ s. s.0;
  counter = λ s. s.1;
  set_counter = λ c s. (s.0, c, s.2);
  try_send = λ m s. ((s.0 + 10, s.1, s.2), ok tt);
  completed = λ t s. ((s.0 + 5, s.1, s.2), true);
  receive = λ id t s. next_answer s;
  instant-set_counter = λ c s. at_once s.0;
  instant-try_send = λ m s. later s.0 10;
  instant-completed = λ t s. later s.0 5;
  instant-receive = λ id t s. answer_later s;
}
