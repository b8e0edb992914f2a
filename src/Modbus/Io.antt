-- ===== src/Modbus/Io.antt =====
-- The Modbus TCP library of roboplc as an interface (`tcp::connect`, `ModbusMapping`): what the
-- program calls of it, over a state that stands for the network, the devices and the clock.
use roboplc_middle.Prelude.{ℕ, List}
use roboplc_middle.Modbus.Address.{ModbusRegisterKind}

-- A result whose error is a text, by its code points.
pub data Outcome {ℓ} (A : Type ℓ) : Type ℓ where
  ok : A → Outcome A
  err : List ℕ → Outcome A

pub record Io : Type 1 where
  pub State : Type 0
  pub Client : Type 0
  pub Mapping : Type 0
  -- `SystemTime::now`, in microseconds
  pub now : State → ℕ
  -- `tcp::connect` with the endpoint and a timeout in milliseconds, and `Client::connect`
  pub connect : List ℕ → ℕ → State → State × Outcome Client
  -- `ModbusMapping::create` with the unit, the kind, the address and the count
  pub create : Client → ℕ → ModbusRegisterKind → ℕ → ℕ → State → State × Outcome Mapping
  -- `read::<CoilData>` and `read::<RegisterData>`
  pub read_bytes : Mapping → State → State × Outcome (List ℕ)
  pub read_words : Mapping → State → State × Outcome (List ℕ)
  -- `write` of a word, of bytes and of words
  pub write_word : Mapping → ℕ → State → State × Outcome (Unit {0})
  pub write_bytes : Mapping → List ℕ → State → State × Outcome (Unit {0})
  pub write_words : Mapping → List ℕ → State → State × Outcome (Unit {0})
