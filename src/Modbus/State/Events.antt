-- ===== src/Modbus/State/Events.antt =====
-- What `ensure_connected` (workers/modbus/state.rs) reports and leaves.
use roboplc_middle.Prelude.{
  ℕ, ◌≡◌, refl, sym, ap, ◌∙◌, true, false, List, [], ◌∷◌, ◌++◌, Option, none, some, inl, inr,
  Bool-cases,
}
use mathlib.Core.Path.{subst}
use roboplc_middle.Modbus.Io.{Io, Outcome, ok, err}
use roboplc_middle.Modbus.Backoff.{reset}
use roboplc_middle.Modbus.Timeout.{timeout, on_timeout, on_success}
use roboplc_middle.Modbus.Pool.{ModbusConnectionPool}
use roboplc_middle.Modbus.State.{
  ConnectionState, disconnected, connecting, connected, DeviceEvent, event_type_of, same_state,
  ModbusWorkerState, update_connection_state, Worker, endpoint_of, pool_of, pooled, connect_pool,
  Connected, mark_connected, connect_result, ensure_with, ensure_connected,
}

-- Events that report every change of the connection state, in order, and nothing else.
pub data Chain : ConnectionState → List DeviceEvent → ConnectionState → Type 0 where
  unchanged : (c : ConnectionState) → Chain c [] c
  change :
      (c d f : ConnectionState) (e : DeviceEvent) (es : List DeviceEvent)
      → same_state c d ≡ false
      → e.event_type ≡ event_type_of d
      → Chain d es f
      → Chain c (e ∷ es) f

Chain-append :
    (c d f : ConnectionState) (es fs : List DeviceEvent)
    → Chain c es d
    → Chain d fs f
    → Chain c (es ++ fs) f
Chain-append c d f _ fs (unchanged _) g = g
Chain-append c d f _ fs (change _ x _ e es n t h) g =
    change c x f e (es ++ fs) n t (Chain-append x d f es fs h g)

same_state_eq : (c d : ConnectionState) → same_state c d ≡ true → c ≡ d
unfolding same_state
same_state_eq disconnected disconnected e = refl
same_state_eq connecting connecting e = refl
same_state_eq connected connected e = refl
same_state_eq disconnected connecting e = cc
same_state_eq disconnected connected e = cc
same_state_eq connecting disconnected e = cc
same_state_eq connecting connected e = cc
same_state_eq connected disconnected e = cc
same_state_eq connected connecting e = cc

module _ {Client : Type 0} where
  -- The state is the new one, its change is reported, and nothing else changes.
  record Updated (w : ModbusWorkerState Client) (d : ConnectionState)
      (a : ModbusWorkerState Client × List DeviceEvent) : Type 0 where
    reported : Chain w.connection_state a.1 d
    changed : a.0 ≡ record w { connection_state = d }

  update_connection_state-Updated :
      (w : ModbusWorkerState Client) (d : ConnectionState) (now : ℕ)
      → Updated w d (update_connection_state w d now)
  unfolding update_connection_state
  update_connection_state-Updated w d now = elim (Bool-cases (same_state w.connection_state d)) [
    | inl e ↦
        let eq = same_state_eq w.connection_state d e in
        rw e (record {
          reported = subst (λ c. Chain w.connection_state [] c) eq (unchanged w.connection_state);
          changed = ap (λ c. record w { connection_state = c }) eq;
        })
    | inr e ↦ rw e (record {
      reported = change w.connection_state d d _ [] e refl (unchanged d);
      changed = refl;
    })
  ]

module _ (io : Io) where
  -- How an `ensure_connected` from `w` on ends.
  pub data Ensured (w : Worker io) (a : Connected io) : Type 0 where
    online :
        (p : ModbusConnectionPool io.Client)
        → Chain w.connection_state a.2 connected
        → a.0 ≡ record w {
          connection_pool = some p;
          connection_state = connected;
          timeout_handler = on_success w.timeout_handler;
          backoff = reset w.backoff;
        }
        → a.3 ≡ true
        → Ensured w a
    offline :
        Chain w.connection_state a.2 disconnected
        → a.0 ≡ record w {
          connection_pool = none;
          connection_state = disconnected;
          timeout_handler = on_timeout w.timeout_handler;
        }
        → a.3 ≡ false
        → Ensured w a

  abbrev linked : Worker io → ModbusConnectionPool io.Client → ConnectionState → Worker io
  linked w p c = record w { connection_pool = some p; connection_state = c }

  abbrev unlinked : Worker io → ConnectionState → Worker io
  unlinked w c = record w { connection_pool = none; connection_state = c }

  mark_connected-Ensured :
      (w : Worker io) (p : ModbusConnectionPool io.Client) (c : ConnectionState) (s : io.State)
      (events : List DeviceEvent)
      → Chain w.connection_state events c
      → Ensured w (mark_connected io (linked w p c) s events)
  unfolding mark_connected
  mark_connected-Ensured w p c s events h =
      let u = update_connection_state-Updated (linked w p c) connected (io.now s) in
      online p (Chain-append w.connection_state c connected events _ h u.reported)
        (ap
          (λ (v : Worker io). record v {
            timeout_handler = on_success v.timeout_handler;
            backoff = reset v.backoff;
          })
          u.changed)
        refl

  connect_result-Ensured :
      (w : Worker io) (c : ConnectionState) (events : List DeviceEvent)
      (o : io.State × Outcome io.Client)
      → Chain w.connection_state events c
      → Ensured w (connect_result io events (pooled io (unlinked w c) o))
  unfolding connect_result mark_connected
  connect_result-Ensured w c events (s, ok _) h =
      mark_connected-Ensured w (pool_of io w.device) c s events h
  connect_result-Ensured w c events (s, err e) h =
      let late = record (unlinked w c) { timeout_handler = on_timeout w.timeout_handler } in
      let u = update_connection_state-Updated late disconnected (io.now s) in
      offline (Chain-append w.connection_state c disconnected events _ h u.reported) u.changed refl

  ensure_with-Ensured :
      (o : Option (ModbusConnectionPool io.Client)) (w : Worker io) (s : io.State)
      → w.connection_pool ≡ o
      → Ensured w (ensure_with io o w s)
  unfolding ensure_with connect_pool mark_connected
  ensure_with-Ensured (some p) w s e =
      subst (λ v. Ensured w (mark_connected io v s []))
        (ap (λ o. record w { connection_pool = o }) (sym e))
        (mark_connected-Ensured w p w.connection_state s [] (unchanged w.connection_state))
  ensure_with-Ensured none w s e =
      let (_, events) = update_connection_state w connecting (io.now s) in
      let u = update_connection_state-Updated w connecting (io.now s) in
      let reached =
        u.changed ∙ ap (λ o. record w { connection_pool = o; connection_state = connecting }) e in
      subst
        (λ v. Ensured w (
          connect_result io events
            (pooled io v (io.connect (endpoint_of io v.device) (timeout w.timeout_handler) s))))
        (sym reached) (connect_result-Ensured w connecting events _ u.reported)

  -- Every `ensure_connected` ends in one of two ways: connected with a pool, the timeout and the
  -- back-off reset, and a true result; or disconnected with no pool, a timeout doubled up to its
  -- maximum, and false. The events that it pushes are exactly the changes of the connection state,
  -- in order, and the rest of the worker is as before.
  pub ensure_connected-Ensured :
      (w : Worker io) (s : io.State) → Ensured w (ensure_connected io w s)
  unfolding ensure_connected
  ensure_connected-Ensured w s = ensure_with-Ensured w.connection_pool w s refl

  ensure_with-keeps :
      (o : Option (ModbusConnectionPool io.Client)) (w : Worker io) (s : io.State)
      (p : ModbusConnectionPool io.Client)
      → w.connection_pool ≡ o
      → o ≡ some p
      → let (w', s', events, answer) = ensure_with io o w s in
        (w'.connection_pool ≡ some p) × (s' ≡ s) × (answer ≡ true)
  unfolding ensure_with mark_connected
  ensure_with-keeps none w s p e d = absurd cc
  ensure_with-keeps (some _) w s p e d =
      let u = update_connection_state-Updated w connected (io.now s) in
      (ap (λ (v : Worker io). v.connection_pool) u.changed ∙ e ∙ d, refl, refl)

  -- Once a worker has a pool, `ensure_connected` answers true without asking the network: the pool
  -- and the network are as before, whether the device can be reached or not.
  pub ensure_connected-keeps :
      (w : Worker io) (s : io.State) (p : ModbusConnectionPool io.Client)
      → w.connection_pool ≡ some p
      → let (w', s', events, answer) = ensure_connected io w s in
        (w'.connection_pool ≡ some p) × (s' ≡ s) × (answer ≡ true)
  unfolding ensure_connected
  ensure_connected-keeps w s p e = ensure_with-keeps w.connection_pool w s p refl e
