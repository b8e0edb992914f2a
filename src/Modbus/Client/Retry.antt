-- ===== src/Modbus/Client/Retry.antt =====
-- `ModbusClient` of workers/modbus/client.rs: one connection, opened late, and one retry.
use roboplc_middle.Prelude.{ℕ, Bool, false, List, ◌++◌, Option, none, some, if◌then◌else◌}
use roboplc_middle.Prelude.Text.{codes}
use roboplc_middle.Prelude.Json.{Json}
use roboplc_middle.Modbus.Io.{Io, Outcome, ok, err}
use roboplc_middle.Modbus.Client.{
  ModbusOp, OperationResult, failed, dispatch_op_static, is_connection_broken,
}

-- `DEFAULT_CONNECT_TIMEOUT`, in milliseconds.
abbrev pub default_connect_timeout : ℕ
default_connect_timeout = 200

pub record ModbusClient (Client : Type 0) : Type 0 where
  pub endpoint : List ℕ
  pub connection : Option Client
  pub unit_id : ℕ

unfoldable pub new : {Client : Type 0} → List ℕ → ℕ → ModbusClient Client
new endpoint unit_id = record { endpoint = endpoint; connection = none; unit_id = unit_id }

-- The retry is due: a failure whose error stands for a broken connection.
abbrev pub is_broken : {Value : Type 0} → OperationResult Value → Bool
is_broken r =
    if r.success then false else elim r.error [ none ↦ false | some e ↦ is_connection_broken e ]

module _ {F64 : Type 0} (js : Json F64) (io : Io) where
  abbrev pub Step : Type 0 → Type 0
  Step A = ModbusClient io.Client × io.State × A

  abbrev pub keep :
      ModbusClient io.Client → io.State × Outcome io.Client → Step (Outcome (Unit {0}))
  keep mc (s, ok client) = (record mc { connection = some client }, s, ok tt)
  keep mc (s, err e) = (mc, s, err e)

  unfoldable pub connect : ℕ → ModbusClient io.Client → io.State → Step (Outcome (Unit {0}))
  connect timeout mc s = keep mc (io.connect mc.endpoint timeout s)

  -- `connect` where there is no connection.
  abbrev pub open_unless :
      Option io.Client → ℕ → ModbusClient io.Client → io.State → Step (Outcome (Unit {0}))
  open_unless none timeout mc s = connect timeout mc s
  open_unless (some _) timeout mc s = (mc, s, ok tt)

  unfoldable pub ensure_connected :
      ℕ → ModbusClient io.Client → io.State → Step (Outcome (Unit {0}))
  unfolding connect
  ensure_connected timeout mc s = open_unless mc.connection timeout mc s

  -- `dispatch_op` on the connection, whose loss is reported by a text.
  abbrev pub use_connection :
      Option io.Client
      → List ℕ
      → ModbusClient io.Client
      → ModbusOp
      → io.State
      → Step (OperationResult js.Value)
  use_connection none lost mc op s = (mc, s, failed js io lost)
  use_connection (some client) lost mc op s =
      let (s', r) = dispatch_op_static js io client mc.unit_id op s in (mc, s', r)

  -- What follows `ensure_connected`: a failure is reported under the given texts.
  abbrev pub connected :
      List ℕ → List ℕ → ModbusOp → Step (Outcome (Unit {0})) → Step (OperationResult js.Value)
  connected refused lost op (mc, s, err e) = (mc, s, failed js io (refused ++ e))
  connected refused lost op (mc, s, ok _) = use_connection mc.connection lost mc op s

  abbrev pub reconnect :
      ModbusOp → ModbusClient io.Client → io.State → Step (OperationResult js.Value)
  reconnect op mc s =
      connected (codes "Reconnection failed: ") (codes "Connection lost after ensure_connected") op
        (ensure_connected default_connect_timeout (record mc { connection = none }) s)

  abbrev pub retried : ModbusOp → Step (OperationResult js.Value) → Step (OperationResult js.Value)
  retried op (mc, s, r) = if is_broken r then reconnect op mc s else (mc, s, r)

  -- A lost connection returns at once.
  abbrev pub first_use :
      Option io.Client
      → ModbusClient io.Client
      → ModbusOp
      → io.State
      → Step (OperationResult js.Value)
  first_use none mc op s = (mc, s, failed js io (codes "Connection lost during retry"))
  first_use (some client) mc op s =
      let (s', r) = dispatch_op_static js io client mc.unit_id op s in retried op (mc, s', r)

  -- A failed connection attempt returns at once.
  abbrev pub first_try : ModbusOp → Step (Outcome (Unit {0})) → Step (OperationResult js.Value)
  first_try op (mc, s, err e) = (mc, s, failed js io (codes "Connection failed: " ++ e))
  first_try op (mc, s, ok _) = first_use mc.connection mc op s

  unfoldable pub execute_operation :
      ModbusOp → ModbusClient io.Client → io.State → Step (OperationResult js.Value)
  unfolding ensure_connected
  execute_operation op mc s = first_try op (ensure_connected default_connect_timeout mc s)
