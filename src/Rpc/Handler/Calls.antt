-- ===== src/Rpc/Handler/Calls.antt =====
-- The methods of the server over a hub that hands each message to a Modbus worker at once
-- (workers/rpc/handler.rs, workers/modbus/worker.rs).
use mathlib.Core.Path.{subst}
use roboplc_middle.Prelude.{
  ℕ, ◌+◌, ◌%◌, ◌^◌, ◌==◌, ◌≡◌, ◌≢◌, refl, sym, ap, ◌∙◌, true, false, String, List, [], ◌∷◌, Option,
  none, some, arith, ==_iff, if◌then◌else◌, inl, inr, Bool-cases,
}
use roboplc_middle.Prelude.Text.{codes}
use roboplc_middle.Prelude.Float.{Float}
use roboplc_middle.Prelude.Json.{Json}
use roboplc_middle.Prelude.Maps.{string_key}
use roboplc_middle.Config.{Config}
use roboplc_middle.Hub.{
  Hub, Received, answered, timed_out, take_id, submit, send_to_hub_with_protection,
}
use roboplc_middle.Modbus.Io.{Io, ok}
use roboplc_middle.Modbus.Client.{OperationResult}
use roboplc_middle.Modbus.State.{DeviceEvent, Worker}
use roboplc_middle.Modbus.Handler.{
  Operation, get_status as get_status_operation, read_signal_group as read_operation,
  write_signal_group as write_operation,
}
use roboplc_middle.Modbus.Handler.Control.{request}
use roboplc_middle.Modbus.Handler.Responses.{Told, told_success, told_failure}
use roboplc_middle.Modbus.Handler.Safety.{request-answers}
use roboplc_middle.Modbus.Worker.{
  Destination, to_channel, to_hub, destination, ModbusWorker, Stepped, answered as worker_answered,
  step,
}
use roboplc_middle.Modbus.Worker.Answers.{IsReady}
use roboplc_middle.Rpc.Handler.{
  RpcMethod, ping, get_version, get_device_list, get_status, read_signal_group, write_signal_group,
  replied, RpcResultType, response_data, error, RpcHandler, send_device_control, handle_call,
}

module _ (fl : Float) (js : Json fl.F64) (io : Io) (from_str : List ℕ → Option Config) where
  open js use {Value}

  -- A worker and the network, the answers that were not taken, and the counter of the ids.
  pub record Room : Type 0 where
    pub worker : ModbusWorker fl js io
    pub network : io.State
    pub inbox : List (Destination × OperationResult Value)
    pub counter : ℕ

  abbrev delivered : Room → Stepped fl js io → Room
  delivered r none = r
  delivered r (some (w, s, events, answers)) = record r { worker = w; network = s; inbox = answers }

  abbrev pick : ℕ → List (Destination × OperationResult Value) → Received Value
  pick id [] = timed_out
  pick id ((to_channel c, a) ∷ rest) =
      let other = pick id rest in if c == id then answered (a.success, a.result, a.error) else other
  pick id ((to_hub d n, a) ∷ rest) = pick id rest

  -- The hub that gives each message to the worker at once, in no time.
  abbrev pub worker_hub : Hub Value
  worker_hub = record {
    State = Room;
    now = λ r. 0;
    instant = λ r. 0;
    counter = λ r. r.counter;
    set_counter = λ c r. record r { counter = c };
    try_send = λ m r. (delivered r (step fl js io from_str m r.worker r.network), ok tt);
    completed = λ t r. (r, true);
    receive = λ id t r. (r, pick id r.inbox);
    instant-set_counter = λ c r. omega arith;
    instant-try_send = λ m r. omega arith;
    instant-completed = λ t r. omega arith;
    instant-receive = λ id t r. omega arith;
  }

  -- The device, the operation and the parameters of a method that needs a device.
  abbrev pub device_call : RpcMethod Value → Option (String × Operation × Value)
  device_call (get_status d) = some (d, get_status_operation, js.object [])
  device_call (read_signal_group d g) =
      some (d, read_operation, js.object (("group_name", js.of_str g) ∷ []))
  device_call (write_signal_group d g v) =
      some (d, write_operation, js.object (("group_name", js.of_str g) ∷ ("data", v) ∷ []))
  device_call _ = none

  -- A result shows an answer.
  pub data Shows : OperationResult Value → RpcResultType Value → Type 0 where
    shows_data :
        (v : Value)
        → Shows (record { success = true; result = v; error = none }) (response_data true v)
    shows_error :
        (v : Value) (e : List ℕ)
        → Shows (record { success = false; result = v; error = some e }) (error e)

  -- How a request ends.
  pub data Controlled (d : String) (op : Operation) (params : Value) (r : Room)
      : Room × RpcResultType Value → Type 0 where
    -- the device of the worker: the result shows the answer to the request that the worker runs
    served :
        (w : Worker io) (s : io.State) (events : List DeviceEvent) (a : OperationResult Value)
        (r' : Room) (x : RpcResultType Value)
        → d ≡ r.worker.device_id
        → request fl js io op params r.worker.handler r.network ≡ (w, s, events, some a)
        → Shows a x
        → w.operation_queue ≡ r.worker.handler.operation_queue
        → r'.worker.handler ≡ w
        → r'.network ≡ s
        → Controlled d op params r (r', x)
    -- another device: after five seconds there is no answer
    ignored :
        (r' : Room)
        → d ≢ r.worker.device_id
        → r'.worker ≡ r.worker
        → r'.network ≡ r.network
        → Controlled d op params r (r', error (codes "Request timed out"))

  -- How a call ends: the methods without a device leave all as it is.
  pub data Ended (m : RpcMethod Value) (r : Room) : Room × RpcResultType Value → Type 0 where
    local : (x : RpcResultType Value) → device_call m ≡ none → Ended m r (r, x)
    controlled :
        (d : String) (op : Operation) (params : Value) (c : Room × RpcResultType Value)
        → device_call m ≡ some (d, op, params)
        → Controlled d op params r c
        → Ended m r c

  Told-Shows :
      (a : OperationResult Value)
      → Told a
      → (x : RpcResultType Value) × Shows a x
        × ((r : Room) → replied worker_hub (r, answered (a.success, a.result, a.error)) ≡ (r, x))
  Told-Shows _ (told_success v) = (response_data true v, shows_data v, λ r. refl)
  Told-Shows _ (told_failure v e) = (error e, shows_error v e, λ r. refl)

  -- What follows the run of the request.
  served_lem :
      (d : String) (op : Operation) (params : Value) (id : ℕ) (r₀ r : Room)
      (q : Worker io × io.State × List DeviceEvent × Option (OperationResult Value))
      (a : OperationResult Value)
      → d ≡ r₀.worker.device_id
      → request fl js io op params r₀.worker.handler r₀.network ≡ q
      → q.3 ≡ some a
      → Told a
      → q.0.operation_queue ≡ r₀.worker.handler.operation_queue
      → Controlled d op params r₀ (
          let r' = delivered r (worker_answered fl js io r₀.worker (to_channel id) q) in
          replied worker_hub (r', pick id r'.inbox))
  served_lem d op params id r₀ r (w, s, events, none) a own e k t u = cc
  served_lem d op params id r₀ r (w, s, events, some b) a own e k t u =
      let (x, shows, ends) = Told-Shows a t in
      let same : b ≡ a = ground arith in
      let r' = record r {
        worker = record r₀.worker { handler = w };
        network = s;
        inbox = (to_channel id, b) ∷ [];
      } in
      rw ((==_iff id id).1 refl, same, ends r')
        (served w s events b r' x own e (subst (λ y. Shows y x) (sym same) shows) u refl refl)

  control-Controlled :
      (d : String) (op : Operation) (params : Value) (r : Room)
      → IsReady fl js io r.worker
      → Controlled d op params r (send_device_control worker_hub d op params r)
  unfolding send_device_control take_id submit send_to_hub_with_protection step destination
  control-Controlled d op params r k = elim (Bool-cases (string_key.beq d r.worker.device_id)) [
    | inl e ↦
        let (a, f, t, q) = request-answers fl js io op params r.worker.handler r.network k.small in
        rw (ap (string_key.beq d) k.own ∙ e) (
          served_lem d op params r.counter r (record r { counter = (r.counter + 1) % 2 ^ 64 }) _ a
            ((string_key.beq_iff d _).0 e) refl f t q)
    | inr e ↦ rw (ap (string_key.beq d) k.own ∙ e) (
        ignored _ (λ same. ground (arith, (string_key.beq_iff d r.worker.device_id).1 same, e)) refl
          refl)
  ]

  -- A call over a hub that hands each message at once to the worker of a device whose groups have
  -- fewer than 65535 registers: a method without a device leaves all as it is; a request for that
  -- device ends with the data of a success or the error of a failure, as the worker answers the
  -- request, and leaves no operation in flight; a request for another device reaches no worker and
  -- ends with a time-out.
  pub handle_call-Ended :
      (h : RpcHandler) (m : RpcMethod Value) (r : Room)
      → IsReady fl js io r.worker
      → Ended m r (handle_call js worker_hub h m r)
  unfolding handle_call
  handle_call-Ended h ping r k = local _ refl
  handle_call-Ended h get_version r k = local _ refl
  handle_call-Ended h get_device_list r k = local _ refl
  handle_call-Ended h (get_status d) r k =
      controlled d _ _ _ refl (control-Controlled d get_status_operation (js.object []) r k)
  handle_call-Ended h (read_signal_group d g) r k =
      controlled d _ _ _ refl (control-Controlled d read_operation _ r k)
  handle_call-Ended h (write_signal_group d g v) r k =
      controlled d _ _ _ refl (control-Controlled d write_operation _ r k)
