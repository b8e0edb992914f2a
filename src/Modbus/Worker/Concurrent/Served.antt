-- ===== src/Modbus/Worker/Concurrent/Served.antt =====
-- Every request is answered once, at every interleaving of messages and tasks
-- (workers/modbus/worker.rs and workers/modbus/handler.rs).
use mathlib.Core.List.{Perm, perm_middle}
use mathlib.Core.List.Perm
use mathlib.Core.Path.{subst}
use roboplc_middle.Prelude.{
  ℕ, zero, suc, ◌≡◌, refl, sym, ap, ◌∙◌, List, [], ◌∷◌, ◌++◌, map, Option, none, some, length, inl,
  inr, ◌⊎◌, Bool-cases, Option-cases, All,
}
use roboplc_middle.Prelude.Float.{Float}
use roboplc_middle.Prelude.Json.{Json}
use roboplc_middle.Prelude.Maps.{string_key}
use roboplc_middle.Config.{Config, Device}
use roboplc_middle.Messages.{
  Message, device_control, device_response, device_heartbeat, config_update, data_stream_update,
  system_status,
}
use roboplc_middle.Modbus.Io.{Io}
use roboplc_middle.Modbus.Client.{OperationResult}
use roboplc_middle.Modbus.Pool.{ModbusConnectionPool}
use roboplc_middle.Modbus.Queue.{OperationQueue, quiet, complete}
use roboplc_middle.Modbus.State.{complete_operation, update_device_config}
use roboplc_middle.Modbus.Handler.Reply.{Task, responded, spawned, crashed}
use roboplc_middle.Modbus.Handler.Control.{
  Outcome, handle_device_control, run_task, finished, request,
}
use roboplc_middle.Modbus.Handler.Responses.{Told, run_op-Told}
use roboplc_middle.Modbus.Handler.Safety.{request-answers}
use roboplc_middle.Modbus.Handler.Keeps.{request-keeps}
use roboplc_middle.Modbus.Worker.{
  Destination, destination, find_device, ModbusWorker, find_device_config, configured, reconfigured,
}
use roboplc_middle.Modbus.Worker.Answers.{
  requests_for, find_device-small, SmallIfParsed, SmallMessage, IsReady,
}
use roboplc_middle.Modbus.Worker.Concurrent.{
  Busy, Event, arrives, ends, idle, handled, pick, ended, react, after,
}

-- A queue after some units of capacity are given back.
unfoldable pub returned : ℕ → OperationQueue (Unit {0}) → OperationQueue (Unit {0})
returned zero q = q
returned (suc n) q = returned n (complete quiet q)

module _ (fl : Float) (js : Json fl.F64) (io : Io) where
  open js use {Value}

  -- The messages that arrived.
  unfoldable pub messages_of : List (Event fl js io) → List (Message Value)
  messages_of [] = []
  messages_of (arrives m s ∷ events) = m ∷ messages_of events
  messages_of (ends i pool s ∷ events) = messages_of events

  abbrev pub places : Busy fl js io → List Destination
  places b = map (λ a. a.0) b.answers ++ map (λ t. t.0) b.running

  -- What holds of a worker that started as `w`, after requests whose answers go to the places.
  pub record Accounted (w : ModbusWorker fl js io) (to : List Destination) (b : Busy fl js io)
      : Type 0 where
    pub ready : IsReady fl js io b.worker
    pub own : b.worker.device_id ≡ w.device_id
    -- each request is answered or has its task running, once
    pub once : Perm (places b) to
    pub told : All (λ a. Told a.1) b.answers
    -- each running task holds one unit of capacity
    pub capacity :
        returned (length b.running) b.worker.handler.operation_queue ≡ w.handler.operation_queue

  pub data Goes (w : ModbusWorker fl js io) (to : List Destination)
      : Option (Busy fl js io) → Type 0 where
    goes : (b : Busy fl js io) → Accounted w to b → Goes w to (some b)

  handled-Goes :
      (w : ModbusWorker fl js io) (to : List Destination) (b : Busy fl js io) (d : Destination)
      (o : Outcome fl js io) (a : OperationResult Value)
      → Accounted w to b
      → (finished fl js io o).3 ≡ some a
      → Told a
      → (finished fl js io o).0.operation_queue ≡ b.worker.handler.operation_queue
      → (finished fl js io o).0.device ≡ b.worker.handler.device
      → Goes w (d ∷ to) (handled fl js io b d o)
  unfolding handled finished complete_operation returned
  handled-Goes w to b d (h, s, events, responded r) a k e t q dev =
      let same : a ≡ r = cc in
      goes _ (record {
        ready = record {
          own = ap (λ (x : Device). x.id) dev ∙ k.ready.own;
          small = rw dev k.ready.small;
        };
        own = k.own;
        once = Perm.cons d k.once;
        told = (subst Told same t, k.told);
        capacity = ap (returned (length b.running)) q ∙ k.capacity;
      })
  handled-Goes w to b d (h, s, events, spawned task pool) a k e t q dev = goes _ (record {
    ready = record {
      own = ap (λ (x : Device). x.id) dev ∙ k.ready.own;
      small = rw dev k.ready.small;
    };
    own = k.own;
    once =
        Perm.trans (perm_middle (map (λ a. a.0) b.answers) (map (λ t. t.0) b.running))
          (Perm.cons d k.once);
    told = k.told;
    capacity = ap (returned (length b.running)) q ∙ k.capacity;
  })
  handled-Goes w to b d (h, s, events, crashed) a k e t q dev = cc

  configured-Accounted :
      (w : ModbusWorker fl js io) (to : List Destination) (b : Busy fl js io) (c : Option Config)
      → Accounted w to b
      → SmallIfParsed c
      → Accounted w to (record b { worker = reconfigured fl js io c b.worker })
  unfolding reconfigured find_device_config update_device_config
  configured-Accounted w to b none k h = k
  configured-Accounted w to b (some c) k h =
      elim (Option-cases (find_device b.worker.device_id c.devices)) [
        | inl e ↦ rw (e, configured) k
        | inr (d, e) ↦
            rw (e, configured)
              (record {
                ready = record {
                  own = k.ready.own;
                  small = find_device-small b.worker.device_id c.devices d h e;
                };
                own = k.own;
                once = k.once;
                told = k.told;
                capacity = k.capacity;
              })
      ]

  -- What a picked task leaves.
  Picked : List (Destination × Task) → (Destination × Task) × List (Destination × Task) → Type 0
  Picked xs (x, rest) =
      Perm (map (λ t. t.0) xs) (x.0 ∷ map (λ t. t.0) rest) × (length xs ≡ suc (length rest))

  Picked-cons :
      (x y : Destination × Task) (xs ys : List (Destination × Task))
      → Picked xs (y, ys)
      → Picked (x ∷ xs) (y, x ∷ ys)
  unfolding Picked
  Picked-cons x y xs ys (p, n) =
      (Perm.trans (Perm.cons x.0 p) (Perm.swap y.0 x.0 (map (λ t. t.0) ys)), ap suc n)

  pick-cases :
      (i : ℕ) (xs : List (Destination × Task))
      → (pick fl js io i xs ≡ none)
        ⊎ ((y : Destination × Task) × (ys : List (Destination × Task)) × (pick fl js io i xs
              ≡ some (y, ys))
            × Picked xs (y, ys))
  unfolding pick Picked
  pick-cases i [] = inl refl
  pick-cases zero (x ∷ xs) = inr (x, xs, refl, (Perm.refl _, refl))
  pick-cases (suc i) (x ∷ xs) = elim (pick-cases i xs) [
    | inl e ↦ inl (rw (e, pick) refl)
    | inr (y, ys, e, p) ↦ inr (y, x ∷ ys, rw (e, pick) refl, Picked-cons x y xs ys p)
  ]

  ended-Accounted :
      (w : ModbusWorker fl js io) (to : List Destination) (b : Busy fl js io)
      (pool : ModbusConnectionPool io.Client) (s : io.State) (x : Destination × Task)
      (rest : List (Destination × Task))
      → Accounted w to b
      → Picked b.running (x, rest)
      → Accounted w to (ended fl js io pool s (x, rest) b)
  unfolding ended complete_operation run_task Picked returned
  ended-Accounted w to b pool s (d, t) rest k (p, n) =
      let said = map (λ (a : Destination × OperationResult Value). a.0) b.answers in
      record {
        ready = record { own = k.ready.own; small = k.ready.small };
        own = k.own;
        once =
            Perm.trans
              (Perm.trans (Perm.symm (perm_middle said (map (λ t. t.0) rest)))
                (Perm.append_left said (Perm.symm p)))
              k.once;
        told = (run_op-Told fl js io t.modbus_op t pool s, k.told);
        capacity = ap (λ m. returned m b.worker.handler.operation_queue) (sym n) ∙ k.capacity;
      }

  react-Goes :
      (from_str : List ℕ → Option Config) (e : Event fl js io) (earlier : List (Event fl js io))
      (w : ModbusWorker fl js io) (b : Busy fl js io)
      → Accounted w (requests_for w.device_id (messages_of earlier)) b
      → All (SmallMessage fl js io from_str) (messages_of (e ∷ []))
      → Goes w (requests_for w.device_id (messages_of (e ∷ earlier))) (react fl js io from_str e b)
  unfolding react messages_of requests_for request
  react-Goes from_str (arrives (device_control d op params n to) s) earlier w b k h =
      let (a, f, t, q) = request-answers fl js io op params b.worker.handler s k.ready.small in
      let dev = request-keeps fl js io op params b.worker.handler s in
      let here : b.worker.handler.device.id ≡ w.device_id = k.ready.own ∙ k.own in
      elim (Bool-cases (string_key.beq d w.device_id)) [
        | inl e ↦
            rw (e, ap (string_key.beq d) here ∙ e)
              (handled-Goes w (requests_for w.device_id (messages_of earlier)) b
                (destination d n to) (handle_device_control fl js io op params b.worker.handler s) a
                k f t q dev)
        | inr e ↦ rw (e, ap (string_key.beq d) here ∙ e) (goes b k)
      ]
  react-Goes from_str (arrives (config_update c) s) earlier w b k (h, _) =
      goes _ (configured-Accounted w _ b (from_str c) k h)
  react-Goes from_str (arrives (device_response d x v r n) s) earlier w b k h = goes b k
  react-Goes from_str (arrives (device_heartbeat d t l) s) earlier w b k h = goes b k
  react-Goes from_str (arrives (data_stream_update d g v t l n) s) earlier w b k h = goes b k
  react-Goes from_str (arrives (system_status r c) s) earlier w b k h = goes b k
  react-Goes from_str (ends i pool s) earlier w b k h = elim (pick-cases i b.running) [
    | inl e ↦ rw (e, react) (goes b k)
    | inr (x, rest, e, p) ↦ rw (e, react) (goes _ (ended-Accounted w _ b pool s x rest k p))
  ]

  idle-Accounted :
      (w : ModbusWorker fl js io) → IsReady fl js io w → Accounted w [] (idle fl js io w)
  unfolding idle returned
  idle-Accounted w r = record {
    ready = r;
    own = refl;
    once = Perm.refl [];
    told = tt;
    capacity = refl;
  }

  then-Goes :
      (from_str : List ℕ → Option Config) (e : Event fl js io) (earlier : List (Event fl js io))
      (w : ModbusWorker fl js io)
      → Goes w
          (requests_for w.device_id (messages_of earlier))
          (after fl js io from_str earlier (idle fl js io w))
      → All (SmallMessage fl js io from_str) (messages_of (e ∷ []))
      → Goes w
          (requests_for w.device_id (messages_of (e ∷ earlier)))
          (after fl js io from_str (e ∷ earlier) (idle fl js io w))
  unfolding after
  then-Goes from_str e earlier w g h = go _ g
    where
      go :
          (o : Option (Busy fl js io))
          → Goes w (requests_for w.device_id (messages_of earlier)) o
          → Goes w
              (requests_for w.device_id (messages_of (e ∷ earlier)))
              (elim o [ none ↦ none | some b' ↦ react fl js io from_str e b' ])
      go _ (goes b k) = react-Goes from_str e earlier w b k h

  -- Whatever messages arrive and tasks end, in any order, with any pools and networks, if all groups
  -- have fewer than 65535 registers now and in each configuration that arrives: the worker goes on,
  -- and the places of its answers and of its running tasks are those of the requests for its device,
  -- once each, where they ask for it. Each answer is a success without an error or a failure with
  -- one, and each running task holds one unit of capacity, so that a worker with no running task has
  -- answered all and has the operations in flight of before. Each return of a unit is undisturbed.
  pub after-Goes :
      (from_str : List ℕ → Option Config) (events : List (Event fl js io))
      (w : ModbusWorker fl js io)
      → IsReady fl js io w
      → All (SmallMessage fl js io from_str) (messages_of events)
      → Goes w
          (requests_for w.device_id (messages_of events))
          (after fl js io from_str events (idle fl js io w))
  unfolding after messages_of requests_for
  after-Goes from_str [] w r h = goes _ (idle-Accounted w r)
  after-Goes from_str (arrives m s ∷ earlier) w r (h, hs) =
      then-Goes from_str (arrives m s) earlier w (after-Goes from_str earlier w r hs) (h, tt)
  after-Goes from_str (ends i pool s ∷ earlier) w r h =
      then-Goes from_str (ends i pool s) earlier w (after-Goes from_str earlier w r h) tt
