-- ===== src/Sse/Tests.antt =====
-- The registry of connections at concrete inputs.
use roboplc_middle.Prelude.{◌≡◌, refl, arith, List, [], ◌∷◌, map}
use roboplc_middle.Prelude.Maps.{remove}
use roboplc_middle.Prelude.Sample.{Tree}
use roboplc_middle.Sse.{
  json_data, heartbeat, new, register, unregister, drop_dead, is_subscribed_to, is_target,
  offer_all, send_to_subscribers, send_heartbeat_to_all,
}
use roboplc_middle.Sse.Sample.{sample_channels, connection, sample_registry}
use roboplc_middle.Sse.Registry.{
  IsSound, Registered, Call, on_register, on_send, on_heartbeat, on_unregister, calls,
  register-Registered, calls-IsSound,
}
use roboplc_middle.Sse.Routing.{Routed, targets, send-Routed}

-- Of the connections for the device, one takes the update, one is full and one is dropped.
routed :
    let (r, s, n) =
      send_to_subscribers sample_channels "plc-1" "speed"
        (json_data Tree.null)
        sample_registry
        ([], 0) in
    (map (λ e. e.0) r.connections ≡ 0 ∷ 1 ∷ 2 ∷ []) × (s.0 ≡ 3 ∷ 1 ∷ 0 ∷ []) × (n ≡ 1)
unfolding send_to_subscribers offer_all drop_dead unregister remove is_subscribed_to
routed = (refl, refl, refl)

register-Registered_example :
    Registered
      (connection "plc-3" 0)
      sample_registry
      (register (connection "plc-3" 0) sample_registry)
register-Registered_example = register-Registered 4 (connection "plc-3" 0) sample_registry (record {
  different = omega arith;
  issued = omega arith;
  within = omega arith;
  few = omega arith;
})

abbrev some_calls : List (Call sample_channels)
some_calls =
    on_register (connection "plc-1" 0)
    ∷ on_register (connection "plc-1" 5)
    ∷ on_send "plc-1" "speed" (json_data Tree.null)
    ∷ on_heartbeat
    ∷ on_unregister 0
    ∷ []

calls-IsSound_example : IsSound 5 (calls sample_channels some_calls (new, ([], 0))).0
calls-IsSound_example = calls-IsSound sample_channels some_calls ([], 0) (omega arith)

send-Routed_example :
    Routed sample_channels
      (json_data Tree.null)
      (targets sample_channels
        (is_target sample_channels "plc-1" "speed")
        sample_registry.connections)
      sample_registry
      ([], 0)
      (send_to_subscribers sample_channels "plc-1" "speed"
        (json_data Tree.null)
        sample_registry
        ([], 0))
    × Routed sample_channels heartbeat sample_registry.connections sample_registry
        ([], 0)
        (send_heartbeat_to_all sample_channels sample_registry ([], 0))
send-Routed_example =
    send-Routed sample_channels "plc-1" "speed" (json_data Tree.null) sample_registry ([], 0)
