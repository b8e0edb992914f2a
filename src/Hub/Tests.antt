-- ===== src/Hub/Tests.antt =====
-- The send pool at concrete inputs.
use mathlib.Core.List.{Perm}
use roboplc_middle.Prelude.{ℕ, ◌+◌, ◌≤◌, ◌≡◌, refl, true, false, List, [], ◌∷◌, All, length}
use roboplc_middle.Hub.Threads.{
  hub_send_pool_size, hub_send_queue_capacity, SendPool, Event, submitted, turn, new, submit,
  receive, advance, handle, run,
}
use roboplc_middle.Hub.Threads.Sound.{in_hand, IsSound, run-IsSound}
use roboplc_middle.Hub.Threads.Drain.{IsTurn, run-drains}

-- Two tasks are accepted, the first is received, and its send does not return yet.
abbrev events : List (Event ℕ)
events = submitted 7 ∷ submitted 8 ∷ turn 3 true ∷ turn 3 false ∷ []

abbrev pool : SendPool ℕ
unfolding run
pool = run new events

waits : pool.queue ≡ 8 ∷ []
unfolding new submit receive advance handle run
waits = refl

run-IsSound_example :
    IsSound (run new events)
    × (length (run new events).accepted
        ≤ length (run new events).finished + hub_send_pool_size + hub_send_queue_capacity)
run-IsSound_example = run-IsSound events

run-drains_example :
    (more : List (Event ℕ)) × All IsTurn more
    × ((run (run new events) more).queue ≡ [])
    × (in_hand (run (run new events) more).threads ≡ [])
    × Perm (run new events).accepted (run (run new events) more).finished
run-drains_example = run-drains events
