-- ===== src/Modbus/Client.antt =====
-- Modbus operations on a connection, and the client that reconnects (workers/modbus/client.rs).
pub mod Results
pub mod Direct
pub mod Retry
pub mod Recovery
mod Tests
use roboplc_middle.Prelude.{
  ℕ, zero, suc, ◌+◌, ◌-◌, ◌%◌, ◌^◌, Bool, true, false, ◌&&◌, ◌||◌, not, String, List, [], ◌∷◌, ◌++◌,
  map, Option, none, some, ◌==◌, if◌then◌else◌, length, get_or,
}
use roboplc_middle.Prelude.Text.{codes}
use roboplc_middle.Prelude.Json.{Json}
use roboplc_middle.Modbus.Address.{ModbusRegisterKind}
use roboplc_middle.Modbus.Io.{Io, Outcome, ok, err}

pub data WriteValue : Type 0 where
  coil : Bool → WriteValue
  holding : ℕ → WriteValue

-- Addresses, counts and values are u16.
pub data ModbusOp : Type 0 where
  read_coil read_discrete read_input read_holding : ℕ → ℕ → ModbusOp
  write_single : ℕ → ℕ → ModbusOp
  write_multiple : ℕ → List ℕ → ModbusOp
  write_single_coil : ℕ → Bool → ModbusOp
  write_multiple_coils : ℕ → List Bool → ModbusOp

pub record OperationResult (Value : Type 0) : Type 0 where
  pub success : Bool
  pub result : Value
  pub error : Option (List ℕ)

-- `str::contains`
abbrev pub begins : List ℕ → List ℕ → Bool
begins [] s = true
begins (p ∷ ps) [] = false
begins (p ∷ ps) (c ∷ s) = p == c && begins ps s

unfoldable pub str_contains : List ℕ → List ℕ → Bool
str_contains s p = contains_from s
  where
    contains_from : List ℕ → Bool
    contains_from [] = begins p []
    contains_from (c ∷ t) = begins p (c ∷ t) || contains_from t

-- The texts that stand for a broken connection.
unfoldable pub is_connection_broken : List ℕ → Bool
unfolding str_contains
is_connection_broken e =
    str_contains e (codes "I/O error")
    || str_contains e (codes "failed to fill")
    || str_contains e (codes "Broken pipe")
    || str_contains e (codes "connection closed")
    || str_contains e (codes "connection reset")

-- `matches!` of the pairs of `write_registers_static`.
unfoldable pub same_kind : WriteValue → WriteValue → Bool
same_kind (coil _) (coil _) = true
same_kind (holding _) (holding _) = true
same_kind _ _ = false

abbrev pub all_same_kind : WriteValue → List WriteValue → Bool
all_same_kind first [] = true
all_same_kind first (v ∷ vs) = same_kind first v && all_same_kind first vs

-- The two `filter_map`s.
unfoldable pub coil_values : List WriteValue → List Bool
coil_values [] = []
coil_values (coil b ∷ vs) = b ∷ coil_values vs
coil_values (holding u ∷ vs) = coil_values vs

unfoldable pub holding_values : List WriteValue → List ℕ
holding_values [] = []
holding_values (coil b ∷ vs) = holding_values vs
holding_values (holding u ∷ vs) = u ∷ holding_values vs

abbrev pub micros : ℕ → ℕ → ℕ
micros start now = (now - start) % 2 ^ 64

module _ {F64 : Type 0} (js : Json F64) (io : Io) where
  abbrev pub Reply : Type 0
  Reply = io.State × OperationResult js.Value

  abbrev pub succeeded : js.Value → OperationResult js.Value
  succeeded v = record { success = true; result = v; error = none }

  abbrev pub failed : List ℕ → OperationResult js.Value
  failed e = record { success = false; result = js.null; error = some e }

  -- The data of a read that started at `start`.
  abbrev pub read_reply : ℕ → io.State → Outcome (List ℕ) → Reply
  read_reply start s (ok vals) = (
    s,
    succeeded (
        js.object (
          ("values", js.array (map js.of_u64 vals))
          ∷ ("latency_us", js.of_u64 (micros start (io.now s)))
          ∷ [])),
  )
  read_reply start s (err e) = (s, failed (codes "Read failed: " ++ e))

  abbrev pub bits_of : Outcome (List ℕ) → Outcome (List ℕ)
  bits_of (ok bytes) = ok (map (λ b. if b == 0 then 0 else 1) bytes)
  bits_of (err e) = err e

  abbrev pub read_values : ModbusRegisterKind → io.Mapping → io.State → io.State × Outcome (List ℕ)
  read_values ModbusRegisterKind.coil m s =
      let (s', bytes) = io.read_bytes m s in (s', bits_of bytes)
  read_values ModbusRegisterKind.discrete m s =
      let (s', bytes) = io.read_bytes m s in (s', bits_of bytes)
  read_values ModbusRegisterKind.input m s = io.read_words m s
  read_values ModbusRegisterKind.holding m s = io.read_words m s

  -- What follows `ModbusMapping::create`.
  abbrev pub with_mapping : io.State × Outcome io.Mapping → (io.Mapping → io.State → Reply) → Reply
  with_mapping (s, err e) f = (s, failed (codes "Failed to create mapping: " ++ e))
  with_mapping (s, ok m) f = f m s

  -- The transaction id is not used.
  unfoldable pub read_registers_static_with_tr_id :
      io.Client → ℕ → ModbusRegisterKind → ℕ → ℕ → Option ℕ → io.State → Reply
  read_registers_static_with_tr_id client unit_id kind address count transaction_id s =
      with_mapping (io.create client unit_id kind address count s) (λ mapping s1.
        let (s2, vals) = read_values kind mapping s1 in read_reply (io.now s1) s2 vals)

  unfoldable pub read_registers_static :
      io.Client → ℕ → ModbusRegisterKind → ℕ → ℕ → io.State → Reply
  unfolding read_registers_static_with_tr_id
  read_registers_static client unit_id kind address count s =
      read_registers_static_with_tr_id client unit_id kind address count none s

  -- From the outcome of the write, the address, the count and the start.
  unfoldable pub build_write_result_static : ℕ → ℕ → ℕ → io.State × Outcome (Unit {0}) → Reply
  build_write_result_static address count start (s, ok _) = (
    s,
    succeeded (
        js.object (
          ("address", js.of_u64 address)
          ∷ ("count", js.of_u64 count)
          ∷ ("latency_us", js.of_u64 (micros start (io.now s)))
          ∷ [])),
  )
  build_write_result_static address count start (s, err e) =
      (s, failed (codes "Write failed: " ++ e))

  abbrev pub write_bits : io.Mapping → ℕ → List Bool → io.State → io.State × Outcome (Unit {0})
  write_bits m count vs s =
      if count == 1
      then io.write_word m (if get_or vs 0 false then 0xFF00 else 0) s
      else io.write_bytes m (map (λ b. if b then 0xFF else 0) vs) s

  abbrev pub write_registers : io.Mapping → ℕ → List ℕ → io.State → io.State × Outcome (Unit {0})
  write_registers m count vs s =
      if count == 1 then io.write_word m (get_or vs 0 0) s else io.write_words m vs s

  unfoldable pub write_coils_static : io.Client → ℕ → ℕ → List WriteValue → io.State → Reply
  unfolding coil_values build_write_result_static
  write_coils_static client unit_id address values s =
      let vs = coil_values values in
      let count = length vs % 2 ^ 16 in
      with_mapping (io.create client unit_id ModbusRegisterKind.coil address count s) (λ mapping s1.
        build_write_result_static address count (io.now s1) (write_bits mapping count vs s1))

  unfoldable pub write_holding_registers_static :
      io.Client → ℕ → ℕ → List WriteValue → io.State → Reply
  unfolding holding_values build_write_result_static
  write_holding_registers_static client unit_id address values s =
      let vs = holding_values values in
      let count = length vs % 2 ^ 16 in
      with_mapping (io.create client unit_id ModbusRegisterKind.holding address count s)
        (λ mapping s1.
          build_write_result_static address count (io.now s1) (write_registers mapping count vs s1))

  -- The match on the first value.
  abbrev pub write_as : io.Client → ℕ → ℕ → WriteValue → List WriteValue → io.State → Reply
  write_as client unit_id address (coil _) values s =
      write_coils_static client unit_id address values s
  write_as client unit_id address (holding _) values s =
      write_holding_registers_static client unit_id address values s

  unfoldable pub write_registers_static : io.Client → ℕ → ℕ → List WriteValue → io.State → Reply
  write_registers_static client unit_id address [] s =
      (s, failed (codes "Cannot write empty values slice"))
  write_registers_static client unit_id address (v ∷ vs) s =
      if all_same_kind v (v ∷ vs)
      then write_as client unit_id address v (v ∷ vs) s
      else (s, failed (codes "Cannot mix Coil and Holding types in single write operation"))

  unfoldable pub dispatch_op_static : io.Client → ℕ → ModbusOp → io.State → Reply
  unfolding read_registers_static write_registers_static
  dispatch_op_static client unit_id (read_coil address count) s =
      read_registers_static client unit_id ModbusRegisterKind.coil address count s
  dispatch_op_static client unit_id (read_discrete address count) s =
      read_registers_static client unit_id ModbusRegisterKind.discrete address count s
  dispatch_op_static client unit_id (read_input address count) s =
      read_registers_static client unit_id ModbusRegisterKind.input address count s
  dispatch_op_static client unit_id (read_holding address count) s =
      read_registers_static client unit_id ModbusRegisterKind.holding address count s
  dispatch_op_static client unit_id (write_single address value) s =
      write_registers_static client unit_id address (holding value ∷ []) s
  dispatch_op_static client unit_id (write_multiple address values) s =
      write_registers_static client unit_id address (map holding values) s
  dispatch_op_static client unit_id (write_single_coil address value) s =
      write_registers_static client unit_id address (coil value ∷ []) s
  dispatch_op_static client unit_id (write_multiple_coils address values) s =
      write_registers_static client unit_id address (map coil values) s
