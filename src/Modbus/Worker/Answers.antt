-- ===== src/Modbus/Worker/Answers.antt =====
-- What a Modbus worker answers (workers/modbus/worker.rs).
use mathlib.Core.Path.{subst}
use mathlib.Core.List.{map-append}
use roboplc_middle.Prelude.{
  ℕ, ◌≡◌, refl, ap, ◌∙◌, String, List, [], ◌∷◌, ◌++◌, map, Option, none, some, arith, if◌then◌else◌,
  inl, inr, Bool-cases, Option-cases, All, All-append,
}
use roboplc_middle.Prelude.Float.{Float}
use roboplc_middle.Prelude.Json.{Json}
use roboplc_middle.Prelude.Maps.{string_key}
use roboplc_middle.Config.{Config, Device}
use roboplc_middle.Messages.{
  Message, device_control, device_response, device_heartbeat, config_update, data_stream_update,
  system_status,
}
use roboplc_middle.Modbus.Io.{Io}
use roboplc_middle.Modbus.Client.{OperationResult}
use roboplc_middle.Modbus.State.{DeviceEvent, Worker, update_device_config}
use roboplc_middle.Modbus.Handler.Control.{request}
use roboplc_middle.Modbus.Handler.Responses.{Told}
use roboplc_middle.Modbus.Handler.Safety.{SmallGroups, request-answers}
use roboplc_middle.Modbus.Handler.Keeps.{request-keeps}
use roboplc_middle.Modbus.Worker.{
  Destination, destination, find_device, ModbusWorker, find_device_config, Stepped, answered,
  configured, reconfigured, step, and_then, run,
}

-- Where the answers to the messages for a device go, in order.
unfoldable pub requests_for : {Value : Type 0} → String → List (Message Value) → List Destination
requests_for id [] = []
requests_for id (device_control d operation params correlation_id respond_to ∷ ms) =
    let others = requests_for id ms in
    if string_key.beq d id then destination d correlation_id respond_to ∷ others else others
requests_for id (device_response d b v e n ∷ ms) = requests_for id ms
requests_for id (device_heartbeat d t l ∷ ms) = requests_for id ms
requests_for id (config_update c ∷ ms) = requests_for id ms
requests_for id (data_stream_update d g v t l n ∷ ms) = requests_for id ms
requests_for id (system_status r c ∷ ms) = requests_for id ms

-- Each configuration has small groups only.
abbrev pub SmallConfig : Config → Type 0
SmallConfig c = All (λ d. SmallGroups d.signal_groups) c.devices

abbrev pub SmallIfParsed : Option Config → Type 0
SmallIfParsed none = Unit {0}
SmallIfParsed (some c) = SmallConfig c

pub find_device-small :
    (id : String) (ds : List Device) (d : Device)
    → All (λ x. SmallGroups x.signal_groups) ds
    → find_device id ds ≡ some d
    → SmallGroups d.signal_groups
unfolding find_device
find_device-small id [] d h e = cc
find_device-small id (x ∷ ds) d (g, h) e = elim (Bool-cases (string_key.beq x.id id)) [
  | inl same ↦ let here : x ≡ d = ground arith in subst (λ y. SmallGroups y.signal_groups) here g
  | inr other ↦ find_device-small id ds d h (ground arith)
]

module _ (fl : Float) (js : Json fl.F64) (io : Io) where
  open js use {Value}

  -- A message that leaves the groups of the devices small.
  abbrev pub SmallMessage : (List ℕ → Option Config) → Message Value → Type 0
  SmallMessage from_str (config_update c) = SmallIfParsed (from_str c)
  SmallMessage from_str _ = Unit {0}

  -- A worker for its device, whose groups are small.
  pub record IsReady (w : ModbusWorker fl js io) : Type 0 where
    pub own : w.handler.device.id ≡ w.device_id
    pub small : SmallGroups w.handler.device.signal_groups

  -- How a worker gets on to the end, with answers that go to the given places in order, each of
  -- which is a success without an error or a failure with one. It has the device and the operations
  -- in flight of before.
  pub data Served (w : ModbusWorker fl js io) (to : List Destination)
      : Stepped fl js io → Type 0 where
    served :
        (w' : ModbusWorker fl js io) (s' : io.State) (events : List DeviceEvent)
        (answers : List (Destination × OperationResult Value))
        → map (λ a. a.0) answers ≡ to
        → All (λ a. Told a.1) answers
        → w'.device_id ≡ w.device_id
        → w'.handler.operation_queue ≡ w.handler.operation_queue
        → IsReady w'
        → Served w to (some (w', s', events, answers))

  handled-Served :
      (w : ModbusWorker fl js io) (to : Destination)
      (r : Worker io × io.State × List DeviceEvent × Option (OperationResult Value))
      (a : OperationResult Value)
      → IsReady w
      → r.3 ≡ some a
      → Told a
      → r.0.operation_queue ≡ w.handler.operation_queue
      → r.0.device ≡ w.handler.device
      → Served w (to ∷ []) (answered fl js io w to r)
  handled-Served w to (h, s, events, none) a k e t q d = cc
  handled-Served w to (h, s, events, some b) a k e t q d =
      let same : a ≡ b = ground arith in
      served (record w { handler = h }) s events ((to, b) ∷ []) refl (rw (← same) t, tt) refl q
        (record { own = ap (λ (x : Device). x.id) d ∙ k.own; small = rw d k.small })

  configured-Served :
      (w : ModbusWorker fl js io) (s : io.State) (c : Option Config)
      → IsReady w
      → SmallIfParsed c
      → Served w [] (some (reconfigured fl js io c w, s, [], []))
  unfolding find_device_config update_device_config reconfigured
  configured-Served w s none k h = served w s [] [] refl tt refl refl k
  configured-Served w s (some c) k h = elim (Option-cases (find_device w.device_id c.devices)) [
    | inl e ↦ rw (e, configured) (served w s [] [] refl tt refl refl k)
    | inr (d, e) ↦
        rw (e, configured)
          (served (record w { handler = update_device_config w.handler d }) s [] [] refl tt refl
            refl (record { own = k.own; small = find_device-small w.device_id c.devices d h e }))
  ]

  step-Served :
      (from_str : List ℕ → Option Config) (m : Message Value) (w : ModbusWorker fl js io)
      (s : io.State)
      → IsReady w
      → SmallMessage from_str m
      → Served w (requests_for w.device_id (m ∷ [])) (step fl js io from_str m w s)
  unfolding step requests_for
  step-Served from_str (device_control d operation params id to) w s k h =
      elim (Bool-cases (string_key.beq d w.device_id)) [
        | inl e ↦
            let (a, f, t, q) = request-answers fl js io operation params w.handler s k.small in
            rw (e, ap (string_key.beq d) k.own ∙ e)
              (handled-Served w (destination d id to)
                (request fl js io operation params w.handler s) a k f t q
                (request-keeps fl js io operation params w.handler s))
        | inr e ↦ rw (e, ap (string_key.beq d) k.own ∙ e) (served w s [] [] refl tt refl refl k)
      ]
  step-Served from_str (config_update c) w s k h = configured-Served w s (from_str c) k h
  step-Served from_str (device_response d b v e n) w s k h = served w s [] [] refl tt refl refl k
  step-Served from_str (device_heartbeat d t l) w s k h = served w s [] [] refl tt refl refl k
  step-Served from_str (data_stream_update d g v t l n) w s k h =
      served w s [] [] refl tt refl refl k
  step-Served from_str (system_status r c) w s k h = served w s [] [] refl tt refl refl k

  pub requests-cons :
      (id : String) (m : Message Value) (ms : List (Message Value))
      → requests_for id (m ∷ ms) ≡ requests_for id (m ∷ []) ++ requests_for id ms
  unfolding requests_for
  requests-cons id (device_control d operation params n to) ms =
      elim (Bool-cases (string_key.beq d id)) [ inl e ↦ rw e | inr e ↦ rw e ]
  requests-cons id (device_response d b v e n) ms = refl
  requests-cons id (device_heartbeat d t l) ms = refl
  requests-cons id (config_update c) ms = refl
  requests-cons id (data_stream_update d g v t l n) ms = refl
  requests-cons id (system_status r c) ms = refl

  joined-Served :
      (w w' : ModbusWorker fl js io) (events : List DeviceEvent)
      (answers : List (Destination × OperationResult Value)) (to more : List Destination)
      (s' : io.State) (r : Stepped fl js io)
      → map (λ a. a.0) answers ≡ to
      → All (λ a. Told a.1) answers
      → w'.device_id ≡ w.device_id
      → w'.handler.operation_queue ≡ w.handler.operation_queue
      → Served w' more r
      → Served w (to ++ more) (and_then fl js io (some (w', s', events, answers)) (λ v s. r))
  joined-Served w w' events answers to more s' _ a t d q (served v s'' later others a' t' d' q' k) =
      served v s'' (events ++ later) (answers ++ others)
        (rw (map-append (λ (x : Destination × OperationResult Value). x.0) answers others, a, a'))
        (All-append _ answers others t t') (d' ∙ d) (q' ∙ q) k

  then-Served :
      (w : ModbusWorker fl js io) (to more : List Destination) (r : Stepped fl js io)
      (next : ModbusWorker fl js io → io.State → Stepped fl js io)
      → Served w to r
      → ((w' : ModbusWorker fl js io) (s' : io.State)
          → IsReady w'
          → w'.device_id ≡ w.device_id
          → Served w' more (next w' s'))
      → Served w (to ++ more) (and_then fl js io r next)
  then-Served w to more _ next (served w' s' events answers a t d q k) rest =
      joined-Served w w' events answers to more s' (next w' s') a t d q (rest w' s' k d)

  -- Any messages, each handled until its task ends before the next is taken, if all groups have
  -- fewer than 65535 registers now and in each configuration that arrives: the worker goes on to the
  -- end and answers exactly the requests for its device, once each, in order, and where they ask for it, by a
  -- success without an error or a failure with one. It is still the worker of its device and has no
  -- more operations in flight.
  pub run-Served :
      (from_str : List ℕ → Option Config) (ms : List (Message Value)) (w : ModbusWorker fl js io)
      (s : io.State)
      → IsReady w
      → All (SmallMessage from_str) ms
      → Served w (requests_for w.device_id ms) (run fl js io from_str ms w s)
  unfolding run requests_for
  run-Served from_str [] w s k h = served w s [] [] refl tt refl refl k
  run-Served from_str (m ∷ ms) w s k (h, hs) = rw (requests-cons w.device_id m ms) (
      then-Served w (requests_for w.device_id (m ∷ [])) (requests_for w.device_id ms)
        (step fl js io from_str m w s) (run fl js io from_str ms) (step-Served from_str m w s k h)
        (λ w' s' k' d. rw (← d) (run-Served from_str ms w' s' k' hs)))
