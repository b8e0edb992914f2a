-- ===== src/Modbus/State/Tests.antt =====
-- The state of a worker at concrete inputs.
use roboplc_middle.Prelude.{◌≡◌, refl, [], ◌∷◌, map, some, none}
use roboplc_middle.Modbus.Sample.{sample_io, sample_device}
use roboplc_middle.Modbus.State.{
  Worker, disconnected, connected_event, reconnecting_event, pool_of, ensure_connected,
  connect_pool, update_connection_state, event_type_of, same_state,
}
use roboplc_middle.Modbus.State.Events.{Ensured, ensure_connected-Ensured}

abbrev worker : Worker sample_io
worker = record {
  device = sample_device;
  connection_pool = none;
  connection_state = disconnected;
  backoff = record { attempts = 0; next_delay_ms = 100 };
  timeout_handler = record { current = 2000; base = 1000; max = 30000 };
  operation_queue = record { pending = []; in_flight = 1; max_in_flight = 2 };
}

-- A first connection is reported as a reconnection and then as a connection.
first_events :
    map (λ e. e.event_type) (ensure_connected sample_io worker 0).2
    ≡ reconnecting_event ∷ connected_event ∷ []
unfolding ensure_connected connect_pool update_connection_state event_type_of same_state
first_events = refl

ensure_connected-Ensured_example : Ensured sample_io worker (ensure_connected sample_io worker 0)
ensure_connected-Ensured_example = ensure_connected-Ensured sample_io worker 0

abbrev pooled_worker : Worker sample_io
pooled_worker = record worker { connection_pool = some (pool_of sample_io sample_device) }
