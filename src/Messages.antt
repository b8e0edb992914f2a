-- ===== src/Messages.antt =====
-- The messages that the workers exchange over the hub (messages.rs). A channel that a message
-- carries is named by a number: that of a request by its correlation id.
use roboplc_middle.Prelude.{ℕ, Bool, String, List, Option}
use roboplc_middle.Modbus.Handler.{Operation}

-- Success, the data, and the error's text.
abbrev pub DeviceResponseData : Type 0 → Type 0
DeviceResponseData Value = Bool × Value × Option (List ℕ)

pub data Message (Value : Type 0) : Type 0 where
  -- the device, the operation, its parameters, the correlation id and the channel for the answer
  device_control : String → Operation → Value → ℕ → Option ℕ → Message Value
  -- the device, success, the data, the error and the correlation id
  device_response : String → Bool → Value → Option (List ℕ) → ℕ → Message Value
  -- the device, the time in milliseconds and the latency in microseconds
  device_heartbeat : String → ℕ → ℕ → Message Value
  -- the configuration as JSON text
  config_update : List ℕ → Message Value
  -- the device, the group, the values, the time, the latency and the sequence number
  data_stream_update : String → String → Value → ℕ → ℕ → ℕ → Message Value
  -- the requester and the channel for the answer
  system_status : String → ℕ → Message Value
