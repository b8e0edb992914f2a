-- ===== src/Rpc/Handler.antt =====
-- The methods of the JSON-RPC server (workers/rpc/types.rs, workers/rpc/handler.rs).
pub mod Calls
mod Tests
use roboplc_middle.Prelude.{ℕ, Bool, true, false, String, List, [], ◌∷◌, ◌++◌, Option, none, some}
use roboplc_middle.Prelude.Text.{codes}
use roboplc_middle.Prelude.Json.{Json}
use roboplc_middle.Modbus.Io.{Outcome, ok, err}
use roboplc_middle.Modbus.Handler.{
  Operation, get_status as get_status_operation, read_signal_group as read_operation,
  write_signal_group as write_operation,
}
use roboplc_middle.Messages.{device_control}
use roboplc_middle.Hub.{
  Hub, Received, answered, timed_out, disconnected, default_hub_send_timeout, take_id,
  send_to_hub_with_protection,
}

-- A device, a group and the data of a write.
pub data RpcMethod (Value : Type 0) : Type 0 where
  ping get_version get_device_list : RpcMethod Value
  get_status : String → RpcMethod Value
  read_signal_group : String → String → RpcMethod Value
  write_signal_group : String → String → Value → RpcMethod Value

-- `Data` is `response_data`.
pub data RpcResultType (Value : Type 0) : Type 0 where
  success : Bool → RpcResultType Value
  version : String → RpcResultType Value
  device_list : List String → RpcResultType Value
  response_data : Bool → Value → RpcResultType Value
  -- whether it is connected, the time of the last communication and the number of errors
  status : Bool → ℕ → ℕ → RpcResultType Value
  error : List ℕ → RpcResultType Value

pub record RpcHandler : Type 0 where
  pub device_ids : List String

-- `CARGO_PKG_VERSION`, from Cargo.toml.
abbrev pub cargo_pkg_version : String
cargo_pkg_version = "0.1.0"

module _ {Value : Type 0} (hub : Hub Value) where
  abbrev pub Called : Type 0
  Called = hub.State × RpcResultType Value

  abbrev pub replied : hub.State × Received Value → Called
  replied (s, answered (true, reply, e)) = (s, response_data true reply)
  replied (s, answered (false, reply, some e)) = (s, error e)
  replied (s, answered (false, reply, none)) = (s, error (codes "Unknown error"))
  replied (s, timed_out) = (s, error (codes "Request timed out"))
  replied (s, disconnected) = (s, error (codes "Request timed out"))

  -- What follows the send.
  abbrev pub control_sent : ℕ → hub.State × Outcome (Unit {0}) → Called
  control_sent id (s, err e) = (s, error (codes "System overloaded: " ++ e))
  control_sent id (s, ok _) = replied (hub.receive id 5000 s)

  abbrev pub control_with_id : String → Operation → Value → hub.State × ℕ → Called
  unfolding send_to_hub_with_protection
  control_with_id device_id operation params (s, id) = control_sent id (
      send_to_hub_with_protection hub (device_control device_id operation params id (some id))
        default_hub_send_timeout s)

  unfoldable pub send_device_control : String → Operation → Value → hub.State → Called
  unfolding control_with_id take_id
  send_device_control device_id operation params s =
      control_with_id device_id operation params (take_id hub s)

module _ {F64 : Type 0} (js : Json F64) (hub : Hub js.Value) where
  -- The result is always `Ok`.
  unfoldable pub handle_call : RpcHandler → RpcMethod js.Value → hub.State → Called hub
  unfolding send_device_control
  handle_call h ping s = (s, success true)
  handle_call h get_version s = (s, version cargo_pkg_version)
  handle_call h get_device_list s = (s, device_list h.device_ids)
  handle_call h (get_status device_id) s =
      send_device_control hub device_id get_status_operation (js.object []) s
  handle_call h (read_signal_group device_id group_name) s =
      send_device_control hub device_id read_operation
        (js.object (("group_name", js.of_str group_name) ∷ [])) s
  handle_call h (write_signal_group device_id group_name values) s =
      send_device_control hub device_id write_operation
        (js.object (("group_name", js.of_str group_name) ∷ ("data", values) ∷ [])) s
