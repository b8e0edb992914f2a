-- ===== src/Rpc/Handler/Tests.antt =====
-- The methods of the server at concrete inputs.
use roboplc_middle.Prelude.{ℕ, refl, arith, List, [], ◌∷◌, Option, none}
use roboplc_middle.Prelude.Sample.{Tree, sample_float, sample_json}
use roboplc_middle.Config.{Config}
use roboplc_middle.Modbus.Sample.{sample_io, sample_device}
use roboplc_middle.Modbus.State.{disconnected}
use roboplc_middle.Rpc.Handler.{RpcMethod, read_signal_group, RpcHandler, handle_call}
use roboplc_middle.Rpc.Handler.Calls.{Room, worker_hub, Ended, handle_call-Ended}

abbrev handler : RpcHandler
handler = record { device_ids = sample_device.id ∷ [] }

abbrev no_config : List ℕ → Option Config
no_config text = none

abbrev room : Room sample_float sample_json sample_io no_config
room = record {
  worker = record {
    handler = record {
      device = sample_device;
      connection_pool = none;
      connection_state = disconnected;
      backoff = record { attempts = 0; next_delay_ms = 100 };
      timeout_handler = record { current = 2000; base = 1000; max = 30000 };
      operation_queue = record { pending = []; in_flight = 0; max_in_flight = 2 };
    };
    device_id = sample_device.id;
  };
  network = 0;
  inbox = [];
  counter = 1;
}

abbrev read_pose : RpcMethod Tree
read_pose = read_signal_group sample_device.id "pose"

handle_call-Ended_example : Ended sample_float sample_json sample_io no_config read_pose room (
    handle_call sample_json
      (worker_hub sample_float sample_json sample_io no_config)
      handler
      read_pose
      room)
handle_call-Ended_example =
    handle_call-Ended sample_float sample_json sample_io no_config handler read_pose room
      (record { own = refl; small = omega arith })
