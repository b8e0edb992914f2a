-- ===== src/Modbus/Worker/Tests.antt =====
-- A Modbus worker at concrete inputs.
use roboplc_middle.Prelude.{refl, arith, List, [], ◌∷◌, some, none}
use roboplc_middle.Prelude.Sample.{Tree, sample_float, sample_json}
use roboplc_middle.Config.{Config}
use roboplc_middle.Messages.{Message, device_control, device_heartbeat, config_update}
use roboplc_middle.Modbus.Sample.{sample_io, sample_device}
use roboplc_middle.Modbus.Pool.{ModbusConnectionPool}
use roboplc_middle.Modbus.State.{disconnected}
use roboplc_middle.Modbus.Handler.{get_status, read_signal_group}
use roboplc_middle.Modbus.Worker.{ModbusWorker, run}
use roboplc_middle.Modbus.Worker.Concurrent.{Event, arrives, ends, idle, after}
use roboplc_middle.Modbus.Worker.Concurrent.Served.{messages_of, Goes, after-Goes}
use roboplc_middle.Modbus.Worker.Answers.{requests_for, Served, run-Served}

abbrev worker : ModbusWorker sample_float sample_json sample_io
worker = record {
  handler = record {
    device = sample_device;
    connection_pool = none;
    connection_state = disconnected;
    backoff = record { attempts = 0; next_delay_ms = 100 };
    timeout_handler = record { current = 2000; base = 1000; max = 30000 };
    operation_queue = record { pending = []; in_flight = 0; max_in_flight = 2 };
  };
  device_id = sample_device.id;
}

abbrev messages : List (Message Tree)
messages =
    device_control sample_device.id get_status Tree.null 5 (some 5)
    ∷ device_heartbeat "other" 1 2
    ∷ device_control "other" get_status Tree.null 6 (some 6)
    ∷ config_update []
    ∷ device_control sample_device.id read_signal_group Tree.null 7 none
    ∷ []

abbrev reloaded : Config
reloaded = record { devices = sample_device ∷ []; streams = [] }

run-Served_example :
    Served sample_float sample_json sample_io worker
      (requests_for sample_device.id messages)
      (run sample_float sample_json sample_io (λ text. some reloaded) messages worker 0)
run-Served_example =
    run-Served sample_float sample_json sample_io (λ text. some reloaded) messages worker 0
      (record { own = refl; small = omega arith })
      (tt, (tt, (tt, (((omega arith, tt), tt), (tt, tt)))))

abbrev sample_pool : ModbusConnectionPool sample_io.Client
sample_pool = record {
  endpoint = [];
  unit_id = 1;
  pool_size = 2;
  health_check_interval = 30000000;
  available = [];
  total_created = 0;
  transaction_id = 1;
}

-- A second request arrives before the task of the first has ended; the newest event stands first.
abbrev events : List (Event sample_float sample_json sample_io)
events =
    ends 0 sample_pool 0
    ∷ arrives (device_control sample_device.id read_signal_group Tree.null 8 (some 8)) 0
    ∷ arrives (device_control sample_device.id read_signal_group Tree.null 7 none) 0
    ∷ []

after-Goes_example :
    Goes sample_float sample_json sample_io worker
      (requests_for sample_device.id (messages_of sample_float sample_json sample_io events))
      (after sample_float sample_json sample_io
        (λ text. some reloaded)
        events
        (idle sample_float sample_json sample_io worker))
unfolding messages_of
after-Goes_example =
    after-Goes sample_float sample_json sample_io (λ text. some reloaded) events worker
      (record { own = refl; small = omega arith }) (tt, (tt, tt))
