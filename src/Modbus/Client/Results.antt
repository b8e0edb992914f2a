-- ===== src/Modbus/Client/Results.antt =====
-- What the operations of workers/modbus/client.rs report, and what they ask of the network.
use roboplc_middle.Prelude.{
  ℕ, ◌+◌, ◌≤◌, arith, Bool, true, false, List, [], ◌∷◌, none, some, ◌==◌, if-both,
}
use roboplc_middle.Prelude.Json.{Json}
use roboplc_middle.Modbus.Address.{ModbusRegisterKind}
use roboplc_middle.Modbus.Io.{Io, Outcome, ok, err}
use roboplc_middle.Modbus.Client.{
  ModbusOp, read_coil, read_discrete, read_input, read_holding, write_single, write_multiple,
  write_single_coil, write_multiple_coils, OperationResult, Reply, read_reply, read_values,
  with_mapping, write_bits, write_registers, build_write_result_static, dispatch_op_static,
}
use roboplc_middle.Modbus.Client.Direct.{get, put, direct, dispatch_op_static-direct}

-- A success carries no error, and a failure carries an error and no data.
pub data IsConsistent {F64 : Type 0} (js : Json F64) : OperationResult js.Value → Type 0 where
  success_result :
      (v : js.Value) → IsConsistent js (record { success = true; result = v; error = none })
  error_result :
      (e : List ℕ) → IsConsistent js (record { success = false; result = js.null; error = some e })

-- A count of what the library is asked, which a call raises by at most its cost.
pub record Meter (io : Io) : Type 0 where
  pub reading : io.State → ℕ
  pub connect_cost : ℕ
  pub create_cost : ℕ
  pub transfer_cost : ℕ
  pub connect_le :
      (endpoint : List ℕ) (t : ℕ) (s : io.State)
      → reading (io.connect endpoint t s).0 ≤ reading s + connect_cost
  pub create_le :
      (c : io.Client) (u : ℕ) (k : ModbusRegisterKind) (a n : ℕ) (s : io.State)
      → reading (io.create c u k a n s).0 ≤ reading s + create_cost
  pub read_bytes_le :
      (m : io.Mapping) (s : io.State) → reading (io.read_bytes m s).0 ≤ reading s + transfer_cost
  pub read_words_le :
      (m : io.Mapping) (s : io.State) → reading (io.read_words m s).0 ≤ reading s + transfer_cost
  pub write_word_le :
      (m : io.Mapping) (v : ℕ) (s : io.State)
      → reading (io.write_word m v s).0 ≤ reading s + transfer_cost
  pub write_bytes_le :
      (m : io.Mapping) (vs : List ℕ) (s : io.State)
      → reading (io.write_bytes m vs s).0 ≤ reading s + transfer_cost
  pub write_words_le :
      (m : io.Mapping) (vs : List ℕ) (s : io.State)
      → reading (io.write_words m vs s).0 ≤ reading s + transfer_cost

module _ {F64 : Type 0} (js : Json F64) (io : Io) (m : Meter io) where
  -- A consistent reply that costs at most `cost` from the state `s` on.
  abbrev pub Bounded : io.State → ℕ → Reply js io → Type 0
  Bounded s cost r = IsConsistent js r.1 × (m.reading r.0 ≤ m.reading s + cost)

  read_reply-Bounded :
      (start : ℕ) (s s' : io.State) (cost : ℕ) (o : Outcome (List ℕ))
      → m.reading s' ≤ m.reading s + cost
      → Bounded s cost (read_reply js io start s' o)
  read_reply-Bounded start s s' cost (ok vals) h = (success_result _, h)
  read_reply-Bounded start s s' cost (err e) h = (error_result _, h)

  build_write_result-Bounded :
      (address count start : ℕ) (s : io.State) (cost : ℕ) (o : io.State × Outcome (Unit {0}))
      → m.reading o.0 ≤ m.reading s + cost
      → Bounded s cost (build_write_result_static js io address count start o)
  unfolding build_write_result_static
  build_write_result-Bounded address count start s cost (s', ok _) h = (success_result _, h)
  build_write_result-Bounded address count start s cost (s', err e) h = (error_result _, h)

  with_mapping-Bounded :
      (s : io.State) (cost more : ℕ) (o : io.State × Outcome io.Mapping)
      (f : io.Mapping → io.State → Reply js io)
      → m.reading o.0 ≤ m.reading s + cost
      → ((p : io.Mapping) (s' : io.State) → Bounded s' more (f p s'))
      → Bounded s (cost + more) (with_mapping js io o f)
  with_mapping-Bounded s cost more (s', ok p) f h g = let (c, l) = g p s' in (c, omega arith)
  with_mapping-Bounded s cost more (s', err e) f h g = (error_result _, omega arith)

  read_values-le :
      (k : ModbusRegisterKind) (p : io.Mapping) (s : io.State)
      → m.reading (read_values js io k p s).0 ≤ m.reading s + m.transfer_cost
  read_values-le ModbusRegisterKind.coil p s = m.read_bytes_le p s
  read_values-le ModbusRegisterKind.discrete p s = m.read_bytes_le p s
  read_values-le ModbusRegisterKind.input p s = m.read_words_le p s
  read_values-le ModbusRegisterKind.holding p s = m.read_words_le p s

  write_bits-le :
      (p : io.Mapping) (n : ℕ) (vs : List Bool) (s : io.State)
      → m.reading (write_bits js io p n vs s).0 ≤ m.reading s + m.transfer_cost
  write_bits-le p n vs s =
      if-both (λ (r : io.State × Outcome (Unit {0})). m.reading r.0 ≤ m.reading s + m.transfer_cost)
        (n == 1) (m.write_word_le p _ s) (m.write_bytes_le p _ s)

  write_registers-le :
      (p : io.Mapping) (n : ℕ) (vs : List ℕ) (s : io.State)
      → m.reading (write_registers js io p n vs s).0 ≤ m.reading s + m.transfer_cost
  write_registers-le p n vs s =
      if-both (λ (r : io.State × Outcome (Unit {0})). m.reading r.0 ≤ m.reading s + m.transfer_cost)
        (n == 1) (m.write_word_le p _ s) (m.write_words_le p vs s)

  abbrev pub one_exchange : ℕ
  one_exchange = m.create_cost + m.transfer_cost

  get-Bounded :
      (c : io.Client) (u : ℕ) (k : ModbusRegisterKind) (a n : ℕ) (s : io.State)
      → Bounded s one_exchange (get js io c u k a n s)
  get-Bounded c u k a n s =
      with_mapping-Bounded s m.create_cost m.transfer_cost (io.create c u k a n s) _
        (m.create_le c u k a n s)
        (λ p s1.
          read_reply-Bounded (io.now s1) s1 (read_values js io k p s1).0 m.transfer_cost
            (read_values js io k p s1).1 (read_values-le k p s1))

  put-Bounded :
      {A : Type 0} (k : ModbusRegisterKind)
      (write : io.Mapping → ℕ → List A → io.State → io.State × Outcome (Unit {0})) (c : io.Client)
      (u a : ℕ) (vs : List A) (s : io.State)
      → ((p : io.Mapping) (n : ℕ) (vs : List A) (s : io.State)
          → m.reading (write p n vs s).0 ≤ m.reading s + m.transfer_cost)
      → Bounded s one_exchange (put js io k write c u a vs s)
  put-Bounded k write c u a [] s h = (error_result _, omega arith)
  put-Bounded k write c u a (v ∷ vs) s h =
      with_mapping-Bounded s m.create_cost m.transfer_cost _ _ (m.create_le c u k a _ s) (λ p s1.
        build_write_result-Bounded a _ (io.now s1) s1 m.transfer_cost _ (h p _ (v ∷ vs) s1))

  direct-Bounded :
      (c : io.Client) (u : ℕ) (op : ModbusOp) (s : io.State)
      → Bounded s one_exchange (direct js io c u op s)
  direct-Bounded c u (read_coil a n) s = get-Bounded c u ModbusRegisterKind.coil a n s
  direct-Bounded c u (read_discrete a n) s = get-Bounded c u ModbusRegisterKind.discrete a n s
  direct-Bounded c u (read_input a n) s = get-Bounded c u ModbusRegisterKind.input a n s
  direct-Bounded c u (read_holding a n) s = get-Bounded c u ModbusRegisterKind.holding a n s
  direct-Bounded c u (write_single a v) s =
      put-Bounded ModbusRegisterKind.holding (write_registers js io) c u a (v ∷ []) s
        write_registers-le
  direct-Bounded c u (write_multiple a vs) s =
      put-Bounded ModbusRegisterKind.holding (write_registers js io) c u a vs s write_registers-le
  direct-Bounded c u (write_single_coil a v) s =
      put-Bounded ModbusRegisterKind.coil (write_bits js io) c u a (v ∷ []) s write_bits-le
  direct-Bounded c u (write_multiple_coils a vs) s =
      put-Bounded ModbusRegisterKind.coil (write_bits js io) c u a vs s write_bits-le

  -- Every operation on every outcome of the network reports consistently: a success with data and
  -- no error, or a failure with an error and null data; and it asks for at most one mapping and one
  -- transfer, in any measure of what the network is asked.
  pub dispatch_op_static-Bounded :
      (c : io.Client) (u : ℕ) (op : ModbusOp) (s : io.State)
      → Bounded s one_exchange (dispatch_op_static js io c u op s)
  dispatch_op_static-Bounded c u op s =
      rw (dispatch_op_static-direct js io c u op s) (direct-Bounded c u op s)
