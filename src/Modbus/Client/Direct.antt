-- ===== src/Modbus/Client/Direct.antt =====
-- The operations of workers/modbus/client.rs without the detour through `WriteValue`.
use roboplc_middle.Prelude.{ℕ, ◌%◌, ◌^◌, ◌≡◌, refl, ap, Bool, true, List, [], ◌∷◌, map, length}
use roboplc_middle.Prelude.Text.{codes}
use roboplc_middle.Prelude.Json.{Json}
use roboplc_middle.Modbus.Address.{ModbusRegisterKind}
use roboplc_middle.Modbus.Io.{Io, Outcome}
use roboplc_middle.Modbus.Client.{
  coil, holding, ModbusOp, read_coil, read_discrete, read_input, read_holding, write_single,
  write_multiple, write_single_coil, write_multiple_coils, same_kind, all_same_kind, holding_values,
  coil_values, Reply, failed, read_reply, read_values, with_mapping, write_bits, write_registers,
  build_write_result_static, write_registers_static, write_holding_registers_static,
  write_coils_static, dispatch_op_static, read_registers_static, read_registers_static_with_tr_id,
}

all_holding : (u : ℕ) (vs : List ℕ) → all_same_kind (holding u) (map holding vs) ≡ true
unfolding same_kind
all_holding u [] = refl
all_holding u (v ∷ vs) = all_holding u vs

all_coil : (b : Bool) (vs : List Bool) → all_same_kind (coil b) (map coil vs) ≡ true
unfolding same_kind
all_coil b [] = refl
all_coil b (v ∷ vs) = all_coil b vs

holding_values-map : (vs : List ℕ) → holding_values (map holding vs) ≡ vs
unfolding holding_values
holding_values-map [] = refl
holding_values-map (v ∷ vs) = ap (λ ws. v ∷ ws) (holding_values-map vs)

coil_values-map : (vs : List Bool) → coil_values (map coil vs) ≡ vs
unfolding coil_values
coil_values-map [] = refl
coil_values-map (v ∷ vs) = ap (λ ws. v ∷ ws) (coil_values-map vs)

module _ {F64 : Type 0} (js : Json F64) (io : Io) where
  abbrev pub get : io.Client → ℕ → ModbusRegisterKind → ℕ → ℕ → io.State → Reply js io
  get client unit_id kind address count s =
      with_mapping js io (io.create client unit_id kind address count s) (λ m s1.
        let (s2, vals) = read_values js io kind m s1 in read_reply js io (io.now s1) s2 vals)

  -- What writes have in common: a mapping for all the values, in order.
  abbrev pub exchange :
      {A : Type 0}
      → ModbusRegisterKind
      → (io.Mapping → ℕ → List A → io.State → io.State × Outcome (Unit {0}))
      → io.Client
      → ℕ
      → ℕ
      → io.State
      → List A
      → Reply js io
  exchange kind write client unit_id address s vs =
      let count = length vs % 2 ^ 16 in
      with_mapping js io (io.create client unit_id kind address count s)
        (λ m s1. build_write_result_static js io address count (io.now s1) (write m count vs s1))

  abbrev pub put :
      {A : Type 0}
      → ModbusRegisterKind
      → (io.Mapping → ℕ → List A → io.State → io.State × Outcome (Unit {0}))
      → io.Client
      → ℕ
      → ℕ
      → List A
      → io.State
      → Reply js io
  put kind write client unit_id address [] s =
      (s, failed js io (codes "Cannot write empty values slice"))
  put kind write client unit_id address (v ∷ vs) s =
      exchange kind write client unit_id address s (v ∷ vs)

  -- One exchange for each operation.
  abbrev pub direct : io.Client → ℕ → ModbusOp → io.State → Reply js io
  direct client unit_id (read_coil a n) s = get client unit_id ModbusRegisterKind.coil a n s
  direct client unit_id (read_discrete a n) s = get client unit_id ModbusRegisterKind.discrete a n s
  direct client unit_id (read_input a n) s = get client unit_id ModbusRegisterKind.input a n s
  direct client unit_id (read_holding a n) s = get client unit_id ModbusRegisterKind.holding a n s
  direct client unit_id (write_single a v) s =
      put ModbusRegisterKind.holding (write_registers js io) client unit_id a (v ∷ []) s
  direct client unit_id (write_multiple a vs) s =
      put ModbusRegisterKind.holding (write_registers js io) client unit_id a vs s
  direct client unit_id (write_single_coil a v) s =
      put ModbusRegisterKind.coil (write_bits js io) client unit_id a (v ∷ []) s
  direct client unit_id (write_multiple_coils a vs) s =
      put ModbusRegisterKind.coil (write_bits js io) client unit_id a vs s

  write_holding-put :
      (client : io.Client) (unit_id a : ℕ) (vs : List ℕ) (s : io.State)
      → write_registers_static js io client unit_id a (map holding vs) s
        ≡ put ModbusRegisterKind.holding (write_registers js io) client unit_id a vs s
  unfolding write_registers_static write_holding_registers_static same_kind
  write_holding-put client unit_id a [] s = refl
  write_holding-put client unit_id a (v ∷ vs) s = rw (all_holding v vs) (
      ap (exchange ModbusRegisterKind.holding (write_registers js io) client unit_id a s)
        (holding_values-map (v ∷ vs)))

  write_coil-put :
      (client : io.Client) (unit_id a : ℕ) (vs : List Bool) (s : io.State)
      → write_registers_static js io client unit_id a (map coil vs) s
        ≡ put ModbusRegisterKind.coil (write_bits js io) client unit_id a vs s
  unfolding write_registers_static write_coils_static same_kind
  write_coil-put client unit_id a [] s = refl
  write_coil-put client unit_id a (v ∷ vs) s = rw (all_coil v vs) (
      ap (exchange ModbusRegisterKind.coil (write_bits js io) client unit_id a s)
        (coil_values-map (v ∷ vs)))

  -- Every operation is one exchange of its kind: a read creates a mapping of the register kind and
  -- reads it; a write of no value is refused before the network is used, any other write creates
  -- one mapping for all its values in order, and the refusal of mixed kinds is never reached.
  pub dispatch_op_static-direct :
      (client : io.Client) (unit_id : ℕ) (op : ModbusOp) (s : io.State)
      → dispatch_op_static js io client unit_id op s ≡ direct client unit_id op s
  unfolding dispatch_op_static read_registers_static read_registers_static_with_tr_id
  dispatch_op_static-direct client unit_id (read_coil a n) s = refl
  dispatch_op_static-direct client unit_id (read_discrete a n) s = refl
  dispatch_op_static-direct client unit_id (read_input a n) s = refl
  dispatch_op_static-direct client unit_id (read_holding a n) s = refl
  dispatch_op_static-direct client unit_id (write_single a v) s =
      write_holding-put client unit_id a (v ∷ []) s
  dispatch_op_static-direct client unit_id (write_multiple a vs) s =
      write_holding-put client unit_id a vs s
  dispatch_op_static-direct client unit_id (write_single_coil a v) s =
      write_coil-put client unit_id a (v ∷ []) s
  dispatch_op_static-direct client unit_id (write_multiple_coils a vs) s =
      write_coil-put client unit_id a vs s
