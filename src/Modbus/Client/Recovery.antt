-- ===== src/Modbus/Client/Recovery.antt =====
-- What `ModbusClient::execute_operation` (workers/modbus/client.rs) reports and costs.
use roboplc_middle.Prelude.{
  ℕ, ◌+◌, ◌≤◌, ◌≡◌, refl, arith, true, false, List, ◌++◌, Option, none, some, if-both,
}
use roboplc_middle.Prelude.Text.{codes}
use roboplc_middle.Prelude.Json.{Json}
use roboplc_middle.Modbus.Io.{Io, Outcome, ok, err}
use roboplc_middle.Modbus.Client.{ModbusOp, OperationResult}
use roboplc_middle.Modbus.Client.Results.{
  IsConsistent, error_result, Meter, one_exchange, dispatch_op_static-Bounded,
}
use roboplc_middle.Modbus.Client.Retry.{
  ModbusClient, default_connect_timeout, is_broken, Step, keep, connect, open_unless,
  ensure_connected, use_connection, connected, reconnect, retried, first_use, first_try,
  execute_operation,
}

module _ {F64 : Type 0} (js : Json F64) (io : Io) (m : Meter io) where
  -- A consistent reply at a cost, with a connection where it reports a success.
  pub record Answered (s : io.State) (cost : ℕ) (a : Step js io (OperationResult js.Value))
      : Type 0 where
    pub consistent : IsConsistent js a.2
    pub bounded : m.reading a.1 ≤ m.reading s + cost
    pub has_connection : a.2.success ≡ true → (c : io.Client) × (a.0.connection ≡ some c)

  -- A connection, or an error, at a cost.
  record Ready (s : io.State) (cost : ℕ) (a : Step js io (Outcome (Unit {0}))) : Type 0 where
    within : m.reading a.1 ≤ m.reading s + cost
    open_if_ok : a.2 ≡ ok tt → (c : io.Client) × (a.0.connection ≡ some c)

  keep-Ready :
      (mc : ModbusClient io.Client) (s : io.State) (cost : ℕ) (o : io.State × Outcome io.Client)
      → m.reading o.0 ≤ m.reading s + cost
      → Ready s cost (keep js io mc o)
  keep-Ready mc s cost (s', ok c) h = record { within = h; open_if_ok = λ _. (c, refl) }
  keep-Ready mc s cost (s', err e) h = record { within = h; open_if_ok = λ d. absurd cc }

  open_unless-Ready :
      (o : Option io.Client) (mc : ModbusClient io.Client) (s : io.State)
      → mc.connection ≡ o
      → Ready s m.connect_cost (open_unless js io o default_connect_timeout mc s)
  unfolding connect
  open_unless-Ready none mc s e =
      keep-Ready mc s m.connect_cost (io.connect mc.endpoint default_connect_timeout s)
        (m.connect_le mc.endpoint default_connect_timeout s)
  open_unless-Ready (some c) mc s e = record { within = omega arith; open_if_ok = λ _. (c, e) }

  ensure_connected-Ready :
      (mc : ModbusClient io.Client) (s : io.State)
      → Ready s m.connect_cost (ensure_connected js io default_connect_timeout mc s)
  unfolding ensure_connected
  ensure_connected-Ready mc s = open_unless-Ready mc.connection mc s refl

  failed-Answered :
      (s s' : io.State) (cost : ℕ) (mc : ModbusClient io.Client) (e : List ℕ)
      → m.reading s' ≤ m.reading s + cost
      → Answered s cost (mc, s', record { success = false; result = js.null; error = some e })
  failed-Answered s s' cost mc e h = record {
    consistent = error_result e;
    bounded = h;
    has_connection = λ d. absurd cc;
  }

  use_connection-Answered :
      (o : Option io.Client) (lost : List ℕ) (mc : ModbusClient io.Client) (op : ModbusOp)
      (s : io.State)
      → mc.connection ≡ o
      → Answered s (one_exchange js io m) (use_connection js io o lost mc op s)
  use_connection-Answered none lost mc op s e = failed-Answered s s _ mc lost (omega arith)
  use_connection-Answered (some c) lost mc op s e =
      let (k, b) = dispatch_op_static-Bounded js io m c mc.unit_id op s in
      record { consistent = k; bounded = b; has_connection = λ _. (c, e) }

  -- The cost of what came before.
  later :
      (s s' : io.State) (cost more total : ℕ) (a : Step js io (OperationResult js.Value))
      → m.reading s' ≤ m.reading s + cost
      → cost + more ≤ total
      → Answered s' more a
      → Answered s total a
  later s s' cost more total a h k r = record {
    consistent = r.consistent;
    bounded = omega (arith, r.bounded);
    has_connection = r.has_connection;
  }

  connected-Answered :
      (refused lost : List ℕ) (op : ModbusOp) (s : io.State) (cost : ℕ)
      (a : Step js io (Outcome (Unit {0})))
      → Ready s cost a
      → Answered s (cost + one_exchange js io m) (connected js io refused lost op a)
  connected-Answered refused lost op s cost (mc, s', err e) r =
      failed-Answered s s' _ mc (refused ++ e) (omega (arith, r.within))
  connected-Answered refused lost op s cost (mc, s', ok _) r =
      later s s' cost _ _ _ r.within (omega arith)
        (use_connection-Answered mc.connection lost mc op s' refl)

  abbrev pub one_attempt : ℕ
  one_attempt = m.connect_cost + one_exchange js io m

  reconnect-Answered :
      (op : ModbusOp) (mc : ModbusClient io.Client) (s : io.State)
      → Answered s one_attempt (reconnect js io op mc s)
  reconnect-Answered op mc s =
      connected-Answered (codes "Reconnection failed: ")
        (codes "Connection lost after ensure_connected") op s m.connect_cost _
        (ensure_connected-Ready (record mc { connection = none }) s)

  retried-Answered :
      (op : ModbusOp) (s : io.State) (cost : ℕ) (a : Step js io (OperationResult js.Value))
      → Answered s cost a
      → Answered s (cost + one_attempt) (retried js io op a)
  retried-Answered op s cost (mc, s', r) h =
      if-both (Answered s (cost + one_attempt)) (is_broken r)
        (later s s' cost one_attempt _ _ h.bounded (omega arith) (reconnect-Answered op mc s'))
        (later s s 0 cost _ _ (omega arith) (omega arith) h)

  first_use-Answered :
      (o : Option io.Client) (mc : ModbusClient io.Client) (op : ModbusOp) (s : io.State)
      → mc.connection ≡ o
      → Answered s (one_exchange js io m + one_attempt) (first_use js io o mc op s)
  first_use-Answered none mc op s e = failed-Answered s s _ mc _ (omega arith)
  first_use-Answered (some c) mc op s e =
      let lost = codes "Connection lost after ensure_connected" in
      retried-Answered op s _ _ (use_connection-Answered (some c) lost mc op s e)

  first_try-Answered :
      (op : ModbusOp) (s : io.State) (cost : ℕ) (a : Step js io (Outcome (Unit {0})))
      → Ready s cost a
      → Answered s (cost + one_exchange js io m + one_attempt) (first_try js io op a)
  first_try-Answered op s cost (mc, s', err e) r =
      failed-Answered s s' _ mc _ (omega (arith, r.within))
  first_try-Answered op s cost (mc, s', ok _) r =
      later s s' cost _ _ _ r.within (omega arith) (first_use-Answered mc.connection mc op s' refl)

  -- The client retries once at most: whatever the network does, an operation costs at most two
  -- connection attempts and two exchanges, its result is consistent (a success with data and no
  -- error, or a failure with an error and null data), and a success leaves a connection open.
  pub execute_operation-Answered :
      (op : ModbusOp) (mc : ModbusClient io.Client) (s : io.State)
      → Answered s (one_attempt + one_attempt) (execute_operation js io op mc s)
  unfolding execute_operation
  execute_operation-Answered op mc s =
      first_try-Answered op s m.connect_cost _ (ensure_connected-Ready mc s)
