-- ===== src/Heartbeat/Rounds.antt =====
-- The order and the pace of the heartbeat rounds (workers/heartbeat_worker.rs).
use mathlib.Core.List.{append_assoc}
use native.Mathlib.Nat.{mod_self, mod-eq_of_lt, mod-mod}
use roboplc_middle.Prelude.{
  ℕ, zero, suc, ◌+◌, ◌-◌, ◌*◌, ◌/◌, ◌%◌, ◌^◌, ◌≤◌, ◌<◌, ◌≡◌, refl, sym, ap, ◌∙◌, min, max, false,
  String, List, [], ◌∷◌, ◌++◌, map, Option, none, some, arith, ◌==◌, inl, inr, Bool-cases, length,
  get_elem?, length-append, leb, leb→le,
}
use roboplc_middle.Prelude.Json.{Json}
use roboplc_middle.Config.{Device}
use roboplc_middle.Hub.{Hub}
use roboplc_middle.Shared.{DeviceStatus}
use roboplc_middle.Heartbeat.{
  HeartbeatWorker, new, Pinged, ping_device, broadcast_heartbeat, Round, checked_with, indexed,
  round,
}
use roboplc_middle.Heartbeat.Events.{Reported, update-Reported}

get_elem?-middle :
    (pre suf : List Device) (d : Device) → get_elem? (pre ++ d ∷ suf) (length pre) ≡ some d
get_elem?-middle [] suf d = refl
get_elem?-middle (p ∷ pre) suf d = get_elem?-middle pre suf d

get_elem?-some :
    (ds : List Device) (i : ℕ) → i < length ds → (d : Device) × (get_elem? ds i ≡ some d)
get_elem?-some [] i h = absurd (omega arith)
get_elem?-some (d ∷ ds) zero h = (d, refl)
get_elem?-some (d ∷ ds) (suc i) h = get_elem?-some ds i (omega arith)

module _ {F64 : Type 0} (js : Json F64) (hub : Hub js.Value) where
  -- What a round does that checks a device, with what its ping gave.
  pub Checks :
      HeartbeatWorker → Device → List (String × DeviceStatus) → Pinged hub → Round js hub → Type 0
  Checks w d states (s, connected, latency_us) r =
      let count = length w.devices in
      (r.checked ≡ some d.id)
      × (r.worker.devices ≡ w.devices)
      × (r.worker.heartbeat_interval_sec ≡ w.heartbeat_interval_sec)
      × (r.worker.current_device_index ≡ (w.current_device_index % count + 1) % count)
      × Reported d.id connected (hub.instant s) (hub.now s) states r.states r.events
      × (r.world ≡ broadcast_heartbeat js hub d.id latency_us s)
      × (count * (r.sleep_ms + 100) ≤ max (w.heartbeat_interval_sec * 1000) (count * 100))

  pace-long :
      (i c : ℕ) → 0 < c → 100 ≤ i / c * 1000 → c * (max (i / c * 1000) 100 - 100 + 100) ≤ i * 1000
  pace-long i c p h =
      let e : max (i / c * 1000) 100 - 100 + 100 ≡ i / c * 1000 = omega arith in rw e (grind arith)

  pace : (i c : ℕ) → 0 < c → c * (max (i / c * 1000) 100 - 100 + 100) ≤ max (i * 1000) (c * 100)
  pace i c p = elim (Bool-cases (leb 100 (i / c * 1000))) [
    | inl h ↦ omega (arith, pace-long i c p (leb→le _ _ h))
    | inr h ↦ let e : max (i / c * 1000) 100 - 100 + 100 ≡ 100 = ground arith in rw e (omega arith)
  ]

  checked-Checks :
      (w : HeartbeatWorker) (d : Device) (states : List (String × DeviceStatus)) (p : Pinged hub)
      → 0 < length w.devices
      → length w.devices < 2 ^ 64
      → Checks w d states p (
          checked_with js hub
            (record w { current_device_index = w.current_device_index % length w.devices })
            d.id
            states
            p)
  unfolding Checks checked_with
  checked-Checks w d states (s, connected, latency_us) pos small =
      let count = length w.devices in
      let i = w.current_device_index % count in
      let lt : i < count = grind arith in
      (
        refl,
        refl,
        refl,
        (let e : min (i + 1) (2 ^ 64 - 1) ≡ i + 1 = omega arith in ap (λ (n : ℕ). n % count) e),
        update-Reported d.id connected (hub.instant s) (hub.now s) states,
        refl,
        pace w.heartbeat_interval_sec count pos,
      )

  -- With devices, a round never indexes out of bounds: it pings the device at the index, writes
  -- the result of that ping to its status and broadcasts its latency, goes on to the next in a
  -- circle, and with its sleep and the 100 ms of the timer takes a time that makes a sweep over all
  -- devices at most as long as the interval or 100 ms for each device, whichever is longer.
  pub round-Checks :
      (w : HeartbeatWorker) (states : List (String × DeviceStatus)) (s : hub.State)
      → 0 < length w.devices
      → length w.devices < 2 ^ 64
      → (d : Device) × (r : Round js hub) × (get_elem? w.devices
            (w.current_device_index % length w.devices)
          ≡ some d)
        × (round js hub w states s ≡ some r)
        × Checks w d states (ping_device js hub w d.id s) r
  unfolding round indexed ping_device
  round-Checks w states s pos small =
      let count = length w.devices in
      let i = w.current_device_index % count in
      let (d, e) = get_elem?-some w.devices i (grind arith) in
      let w' = record w { current_device_index = i } in
      (
        d,
        checked_with js hub w' d.id states (ping_device js hub w' d.id s),
        e,
        (let z : (count == 0) ≡ false = ground arith in rw (e, z)),
        checked-Checks w d states (ping_device js hub w' d.id s) pos small,
      )

  -- The devices that a number of rounds check, in order; none if one panics.
  unfoldable pub sweep :
      ℕ
      → HeartbeatWorker
      → List (String × DeviceStatus)
      → hub.State
      → Option (List (Option String) × HeartbeatWorker)
  sweep zero w states s = some ([], w)
  sweep (suc n) w states s = elim (round js hub w states s) [
    | none ↦ none
    | some r ↦ elim (sweep n r.worker r.states r.world) [
      | none ↦ none
      | some (checks, w') ↦ some (r.checked ∷ checks, w')
    ]
  ]

  -- What a sweep over the rest of the devices gives: their ids in order, and the index of the start.
  Swept : HeartbeatWorker → List Device → Option (List (Option String) × HeartbeatWorker) → Type 0
  Swept w rest result =
      (w' : HeartbeatWorker) × (result ≡ some (map (λ d. some d.id) rest, w'))
      × (w'.devices ≡ w.devices)
      × (w'.current_device_index % length w.devices ≡ 0)

  Swept-cons :
      (n : ℕ) (w : HeartbeatWorker) (states : List (String × DeviceStatus)) (s : hub.State)
      (d : Device) (rest : List Device) (r : Round js hub)
      → round js hub w states s ≡ some r
      → r.checked ≡ some d.id
      → r.worker.devices ≡ w.devices
      → Swept r.worker rest (sweep n r.worker r.states r.world)
      → Swept w (d ∷ rest) (sweep (suc n) w states s)
  unfolding Swept sweep
  Swept-cons n w states s d rest r e c same (w', f, devices, index) = (
    w',
    rw (e, f, sweep) (ap (λ (o : Option String). some (o ∷ map (λ d. some d.id) rest, w')) c),
    devices ∙ same,
    rw (← same) index,
  )

  sweep-Swept :
      (pre rest : List Device) (w : HeartbeatWorker) (states : List (String × DeviceStatus))
      (s : hub.State)
      → w.devices ≡ pre ++ rest
      → 0 < length w.devices
      → length w.devices < 2 ^ 64
      → w.current_device_index % length w.devices ≡ length pre % length w.devices
      → Swept w rest (sweep (length rest) w states s)
  unfolding Swept sweep Checks
  sweep-Swept pre [] w states s e pos small at =
      let n : length w.devices ≡ length pre = omega (arith, ap length e, length-append pre []) in
      (w, refl, refl, at ∙ rw (← n) (mod_self (length w.devices)))
  sweep-Swept pre (d ∷ rest) w states s e pos small at =
      let n : length w.devices ≡ length pre + suc (length rest) =
        omega (arith, ap length e, length-append pre (d ∷ rest)) in
      let inside : length pre % length w.devices ≡ length pre = mod-eq_of_lt (omega arith) in
      let (d', r, f, er, (c, same, interval, index, reported, told, pacing)) =
        round-Checks w states s pos small in
      let here : d' ≡ d = ground (arith, get_elem?-middle pre rest d) in
      let next : (w.current_device_index % length w.devices + 1) % length w.devices
          ≡ length (pre ++ d ∷ []) % length w.devices =
        rw (at, inside, length-append pre (d ∷ [])) in
      Swept-cons (length rest) w states s d rest r er (c ∙ ap (λ (x : Device). some x.id) here) same
        (sweep-Swept (pre ++ d ∷ []) rest r.worker r.states r.world
          (same ∙ e ∙ sym (append_assoc pre (d ∷ []) rest)) (rw same pos) (rw same small)
          (rw (same, index) (mod-mod _ (length w.devices) ∙ next)))

  -- As many rounds of a new worker as there are devices check each device once, in the order of the
  -- configuration, and end at the first device again.
  pub sweep-new :
      (devices : List Device) (states : List (String × DeviceStatus)) (s : hub.State)
      → 0 < length devices
      → length devices < 2 ^ 64
      → (w' : HeartbeatWorker) × (sweep (length devices) (new devices) states s
          ≡ some (map (λ d. some d.id) devices, w'))
        × (w'.devices ≡ devices)
        × (w'.current_device_index % length devices ≡ 0)
  unfolding Swept new
  sweep-new devices states s pos small =
      sweep-Swept [] devices (new devices) states s refl pos small refl
