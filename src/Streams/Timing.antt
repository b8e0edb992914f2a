-- ===== src/Streams/Timing.antt =====
-- When the groups of streams are polled (workers/data_stream_worker.rs).
use roboplc_middle.Prelude.{
  ℕ, ◌-◌, ◌*◌, ◌≤◌, ◌≡◌, refl, sym, ap, ◌∙◌, Bool, true, false, String, List, [], ◌∷◌, ◌++◌, map,
  some, arith, ◌==◌, ◌&&◌, ◌||◌, if-both, leb, if◌then◌else◌, ◌⊎◌, inl, inr, Bool-cases,
  Option-cases,
}
use roboplc_middle.Prelude.Json.{Json}
use roboplc_middle.Prelude.Maps.{nat_key, find, insert, find-insert}
use roboplc_middle.Correlation.{next_correlation_id}
use roboplc_middle.Modbus.Io.{Outcome, ok, err}
use roboplc_middle.Hub.{
  Hub, Received, answered, timed_out, disconnected, send_instant, send_to_hub_with_protection,
  take_id,
}
use roboplc_middle.Shared.{DataCache}
use roboplc_middle.Streams.{
  StreamGroups, DataStreamWorker, received, requested, poll_request, poll_with_id,
  poll_signal_group,
}
use roboplc_middle.Streams.Schedule.{
  PollTimes, or_insert, last_poll, item, GroupPolls, collect, World, unpolled, poll, poll_items,
  run_polls, poll_round,
}

-- The groups whose interval has passed since their last poll, by the timers of before the round. A
-- group with no timer has its interval ahead.
unfoldable pub due : ℕ → PollTimes → StreamGroups → List GroupPolls
due now times [] = []
due now times ((i, ss) ∷ groups) =
    let others = due now times groups in
    if leb (i * 1000) (now - last_poll i now times) then (i, map item ss) ∷ others else others

find-or_insert :
    (i j now : ℕ) (times : PollTimes)
    → find j (or_insert i now times)
      ≡ (if i == j then some (last_poll i now times) else find j times)
unfolding or_insert last_poll
find-or_insert i j now times = elim (Option-cases (find i times)) [
  | inl e ↦ rw (e, or_insert) (rw (find-insert i j now times, e, last_poll))
  | inr (t, e) ↦ ground (arith)
]

last_poll-or_insert :
    (i j now : ℕ) (times : PollTimes)
    → last_poll j now (or_insert i now times) ≡ last_poll j now times
unfolding last_poll
last_poll-or_insert i j now times = ground (arith, find-or_insert i j now times)

due-or_insert :
    (i now : ℕ) (times : PollTimes) (groups : StreamGroups)
    → due now (or_insert i now times) groups ≡ due now times groups
unfolding due
due-or_insert i now times [] = refl
due-or_insert i now times ((j, ss) ∷ groups) =
    rw (last_poll-or_insert i j now times, due-or_insert i now times groups)

collect-due :
    (now : ℕ) (groups : StreamGroups) (times : PollTimes)
    → (collect now groups times).1 ≡ due now times groups
unfolding collect due
collect-due now [] times = refl
collect-due now ((i, ss) ∷ groups) times =
    rw (collect-due now groups (or_insert i now times), due-or_insert i now times groups)

-- Whether there is a group, or a poll of one, for an interval.
abbrev pub has_group : ℕ → StreamGroups → Bool
has_group i [] = false
has_group i ((j, ss) ∷ groups) = (j == i) || has_group i groups

abbrev mentions : ℕ → List GroupPolls → Bool
mentions i [] = false
mentions i ((j, items) ∷ polls) = (j == i) || mentions i polls

mentions-due :
    (i now : ℕ) (times : PollTimes) (groups : StreamGroups)
    → mentions i (due now times groups)
      ≡ (has_group i groups && leb (i * 1000) (now - last_poll i now times))
unfolding due
mentions-due i now times [] = refl
mentions-due i now times ((j, ss) ∷ groups) = elim (Bool-cases (j == i)) [
  | inr e ↦ ground (arith, mentions-due i now times groups)
  | inl e ↦
      let same : j ≡ i = ground arith in rw same (ground (arith, mentions-due i now times groups))
]

find-collect :
    (i now : ℕ) (groups : StreamGroups) (times : PollTimes)
    → find i (collect now groups times).0
      ≡ (if has_group i groups then some (last_poll i now times) else find i times)
unfolding collect
find-collect i now [] times = refl
find-collect i now ((j, ss) ∷ groups) times = elim (Bool-cases (j == i)) [
  | inr e ↦ rw (
    find-collect i now groups (or_insert j now times),
    last_poll-or_insert j i now times,
    find-or_insert j i now times,
    e,
  )
  | inl e ↦
      let same : j ≡ i = ground arith in
      rw
        (
          find-collect i now groups (or_insert j now times),
          last_poll-or_insert j i now times,
          find-or_insert j i now times,
          e,
          same,
        )
        (if-both (λ o. o ≡ some (last_poll i now times)) (has_group i groups) refl refl)
]

-- The streams of some groups, one after another.
unfoldable pub items_of : List GroupPolls → List (String × String)
items_of [] = []
items_of ((i, items) ∷ polls) = items ++ items_of polls

module _ {F64 : Type 0} (js : Json F64) (hub : Hub js.Value) where
  -- Each is polled once, in order.
  unfoldable pub poll_each : List (String × String) → World js hub → World js hub
  poll_each [] world = world
  poll_each ((d, g) ∷ items) (w, cache, s) =
      let (w', cache', s', success, latency_us, values) = poll_signal_group js hub d g w cache s in
      poll_each items (w', cache', s')

  poll_each-append :
      (items more : List (String × String)) (world : World js hub)
      → poll_each (items ++ more) world ≡ poll_each more (poll_items js hub items world)
  unfolding poll_each poll_items poll
  poll_each-append [] more world = refl
  poll_each-append ((d, g) ∷ items) more (w, cache, s) =
      poll_each-append items more (unpolled js hub (poll_signal_group js hub d g w cache s))

  run_polls-each :
      (polls : List GroupPolls) (world : World js hub) (times : PollTimes)
      → (run_polls js hub polls (world, times)).0 ≡ poll_each (items_of polls) world
  unfolding run_polls items_of poll_each
  run_polls-each [] world times = refl
  run_polls-each ((i, items) ∷ polls) world times =
      run_polls-each polls (poll_items js hub items world) _
      ∙ sym (poll_each-append items (items_of polls) world)

  received_instant :
      (d g : String) (start k : ℕ) (w : DataStreamWorker) (cache : DataCache js.Value)
      (r : hub.State × Received js.Value)
      → k ≤ hub.instant r.0
      → k ≤ hub.instant (unpolled js hub (received js hub d g start w cache r)).2
  unfolding received
  received_instant d g start k w cache (s, answered (success, reply, error)) h =
      omega (arith, send_instant hub _ 2000 s)
  received_instant d g start k w cache (s, timed_out) h = h
  received_instant d g start k w cache (s, disconnected) h = h

  requested_instant :
      (d g : String) (id start k : ℕ) (w : DataStreamWorker) (cache : DataCache js.Value)
      (r : hub.State × Outcome (Unit {0}))
      → k ≤ hub.instant r.0
      → k ≤ hub.instant (unpolled js hub (requested js hub d g id start w cache r)).2
  unfolding requested
  requested_instant d g id start k w cache (s, err e) h = h
  requested_instant d g id start k w cache (s, ok u) h =
      received_instant d g start k w cache (hub.receive id 2000 s)
        (omega (arith, hub.instant-receive id 2000 s))

  poll_instant :
      (d g : String) (world : World js hub)
      → hub.instant world.2 ≤ hub.instant (poll js hub d g world).2
  unfolding poll_signal_group poll_with_id take_id poll
  poll_instant d g (w, cache, s) =
      let (s', id) = take_id hub s in
      let sent = send_to_hub_with_protection hub (poll_request js hub d g id) 2000 s' in
      requested_instant d g id (hub.now s) (hub.instant s) w cache sent (
        omega (
          arith,
          send_instant hub (poll_request js hub d g id) 2000 s',
          hub.instant-set_counter (next_correlation_id (hub.counter s)).0 s,
        ))

  poll_items_instant :
      (items : List (String × String)) (world : World js hub)
      → hub.instant world.2 ≤ hub.instant (poll_items js hub items world).2
  unfolding poll_items
  poll_items_instant [] world = omega arith
  poll_items_instant ((d, g) ∷ items) world =
      omega (arith, poll_instant d g world, poll_items_instant items (poll js hub d g world))

  -- The timer of an interval after some polls that end from a time on.
  Timed : ℕ → ℕ → List GroupPolls → PollTimes → PollTimes → Type 0
  Timed k i polls times times' =
      ((mentions i polls ≡ true) × ((t : ℕ) × (find i times' ≡ some t) × (k ≤ t)))
      ⊎ ((mentions i polls ≡ false) × (find i times' ≡ find i times))

  run_polls-Timed :
      (k i : ℕ) (polls : List GroupPolls) (world : World js hub) (times : PollTimes)
      → k ≤ hub.instant world.2
      → Timed k i polls times (run_polls js hub polls (world, times)).1
  unfolding run_polls Timed
  run_polls-Timed k i [] world times h = inr (refl, refl)
  run_polls-Timed k i ((j, items) ∷ polls) world times h =
      let world' = poll_items js hub items world in
      let at = hub.instant world'.2 in
      let after : k ≤ at = omega (arith, poll_items_instant items world) in
      elim (run_polls-Timed k i polls world' (insert j at times) after) [
        | inl (m, (t, e, l)) ↦ inl (ground arith, (t, e, l))
        | inr (m, e) ↦ elim (Bool-cases (j == i)) [
          | inl same ↦ inl (ground arith, (at, e ∙ rw (find-insert j i at times, same), after))
          | inr other ↦ inr (ground arith, e ∙ rw (find-insert j i at times, other))
        ]
      ]

  -- A round leaves the worker, the cache and the world as single polls of exactly the streams of the
  -- groups whose interval has passed since their timer, in order, leave them. The timer of a polled
  -- group is then an instant not before the round; that of any other group stays, or starts with the
  -- round if there was none, and all other timers stay.
  pub poll_round-Timed :
      (w : DataStreamWorker) (cache : DataCache js.Value) (s : hub.State) (times : PollTimes)
      → ((poll_round js hub ((w, cache, s), times)).0
          ≡ poll_each (items_of (due (hub.instant s) times w.stream_groups)) (w, cache, s))
        × ((i : ℕ)
            → let now = hub.instant s in
              let times' = (poll_round js hub ((w, cache, s), times)).1 in
              let passed = leb (i * 1000) (now - last_poll i now times) in
              let has = has_group i w.stream_groups in
              ((has && passed ≡ true) × ((t : ℕ) × (find i times' ≡ some t) × (now ≤ t)))
              ⊎ ((has && passed ≡ false)
                  × (find i times' ≡ (if has then some (last_poll i now times) else find i times))))
  unfolding poll_round Timed
  poll_round-Timed w cache s times =
      let now = hub.instant s in
      let polled : poll_round js hub ((w, cache, s), times)
          ≡ run_polls js hub (due now times w.stream_groups)
              ((w, cache, s), (collect now w.stream_groups times).0) =
        rw (collect-due now w.stream_groups times) in
      (
        ap (λ (r : World js hub × PollTimes). r.0) polled
            ∙ run_polls-each (due now times w.stream_groups) (w, cache, s) _,
        λ i.
            elim (run_polls-Timed now i (due now times w.stream_groups) (w, cache, s)
              (collect now w.stream_groups times).0 (omega arith)) [
                | inl (m, (t, e, l)) ↦ inl (
                  sym (mentions-due i now times w.stream_groups) ∙ m,
                  (t, ap (λ (r : World js hub × PollTimes). find i r.1) polled ∙ e, l),
                )
                | inr (m, e) ↦ inr (
                  sym (mentions-due i now times w.stream_groups) ∙ m,
                  ap (λ (r : World js hub × PollTimes). find i r.1) polled
                      ∙ e
                      ∙ find-collect i now w.stream_groups times,
                )
              ],
      )
