-- ===== src/Modbus/Pool/Account.antt =====
-- The accounts of the connection pool (workers/modbus/client.rs) along every sequence of its steps.
use roboplc_middle.Prelude.{
  ℕ, suc, ◌+◌, ◌%◌, ◌^◌, ◌≤◌, ◌≡◌, refl, arith, Bool, true, false, List, [], ◌∷◌, length,
  length-append, ltb, All, All-append, Bool-cases, inl, inr,
}
use roboplc_middle.Prelude.Json.{Json}
use roboplc_middle.Modbus.Io.{Io, Outcome, ok, err}
use roboplc_middle.Modbus.Client.{ModbusOp, dispatch_op_static}
use roboplc_middle.Modbus.Client.Retry.{default_connect_timeout}
use roboplc_middle.Modbus.Pool.{
  PooledConnection, ModbusConnectionPool, new, clone, is_fresh, clean_front, release_connection,
  Leased, created, create_connection, lend, acquire_connection, decrement, execute_leased,
  execute_operation,
}

-- With `lent` connections in use: the counter counts them and the idle ones, modulo the width of
-- usize, the idle ones are at most `pool_size`, and all are healthy.
pub record Accounted {Client : Type 0} (lent : ℕ) (p : ModbusConnectionPool Client) : Type 0 where
  pub counted : p.total_created ≡ (length p.available + lent) % 2 ^ 64
  pub fits : length p.available ≤ p.pool_size
  pub healthy : All (λ c. c.is_healthy ≡ true) p.available

module _ (io : Io) where
  -- The pool, the network and the number of connections in use.
  abbrev pub Situation : Type 0
  Situation = ModbusConnectionPool io.Client × io.State × ℕ

  abbrev pub leased : ℕ → Leased io → Situation
  leased lent (p, s, ok c) = (p, s, suc lent)
  leased lent (p, s, err e) = (p, s, lent)

  -- What threads do with a pool, in any order.
  pub data Step : Situation → Situation → Type 0 where
    acquires :
        (p : ModbusConnectionPool io.Client) (s : io.State) (lent : ℕ)
        → Step (p, s, lent) (leased lent (acquire_connection io p s))
    releases :
        (p : ModbusConnectionPool io.Client) (s : io.State) (lent : ℕ) (c : io.Client)
        (healthy : Bool)
        → Step (p, s, suc lent) (release_connection (io.now s) p c healthy, s, lent)
    counts :
        (p : ModbusConnectionPool io.Client) (s : io.State) (lent : ℕ)
        → Step (p, s, lent) (record p { transaction_id = (p.transaction_id + 1) % 2 ^ 16 }, s, lent)
    network :
        (p : ModbusConnectionPool io.Client) (s s' : io.State) (lent : ℕ)
        → Step (p, s, lent) (p, s', lent)

  pub data Steps : Situation → Situation → Type 0 where
    stop : (a : Situation) → Steps a a
    and_then : (a b c : Situation) → Steps a b → Step b c → Steps a c

  abbrev pub Sound : Situation → Type 0
  Sound (p, s, lent) = Accounted lent p

  clean_front-lem :
      (now interval lent : ℕ) (cs : List (PooledConnection io.Client)) (total : ℕ)
      → total ≡ (length cs + lent) % 2 ^ 64
      → All (λ c. c.is_healthy ≡ true) cs
      → let (kept, left) = clean_front now interval cs total in
        (left ≡ (length kept + lent) % 2 ^ 64)
        × (length kept ≤ length cs)
        × All (λ c. c.is_healthy ≡ true) kept
  unfolding clean_front
  clean_front-lem now interval lent [] total e h = (e, omega arith, h)
  clean_front-lem now interval lent (c ∷ cs) total e (h, hs) =
      let (e', l, a) =
        clean_front-lem now interval lent cs (decrement total) (omega (arith, e)) hs in
      elim (Bool-cases (is_fresh now interval c)) [
        | inl fresh ↦ rw fresh (e, omega arith, (h, hs))
        | inr stale ↦ rw stale (e', omega (arith, l), a)
      ]

  created-Accounted :
      (lent : ℕ) (p : ModbusConnectionPool io.Client) (s : io.State)
      (o : io.State × Outcome io.Client)
      → Accounted lent p
      → Sound (leased lent (created io p o))
  created-Accounted lent p s (s', ok c) a = record {
    counted = omega (arith, a.counted);
    fits = a.fits;
    healthy = a.healthy;
  }
  created-Accounted lent p s (s', err e) a = a

  lend-Accounted :
      (lent : ℕ) (p : ModbusConnectionPool io.Client) (s : io.State)
      (kept : List (PooledConnection io.Client)) (total : ℕ)
      → Accounted lent (record p { available = kept; total_created = total })
      → Sound (leased lent (lend io p s (kept, total)))
  unfolding create_connection
  lend-Accounted lent p s [] total a =
      created-Accounted lent (record p { available = []; total_created = total }) s
        (io.connect p.endpoint default_connect_timeout s) a
  lend-Accounted lent p s (c ∷ kept) total a = record {
    counted = omega (arith, a.counted);
    fits = omega (arith, a.fits);
    healthy = a.healthy.1;
  }

  release-Accounted :
      (now lent : ℕ) (p : ModbusConnectionPool io.Client) (c : io.Client) (healthy : Bool)
      → Accounted (suc lent) p
      → Accounted lent (release_connection now p c healthy)
  unfolding release_connection
  release-Accounted now lent p c false a = record {
    counted = omega (arith, a.counted);
    fits = a.fits;
    healthy = a.healthy;
  }
  release-Accounted now lent p c true a = elim (Bool-cases (ltb (length p.available) p.pool_size)) [
    | inl room ↦
        let back : PooledConnection io.Client = record {
          client = c;
          last_used = now;
          is_healthy = true;
        } in
        let l = length-append p.available (back ∷ []) in
        rw room (record {
          counted = omega (arith, l, a.counted);
          fits = ground (arith, l, room);
          healthy =
              All-append (λ c. c.is_healthy ≡ true) p.available (back ∷ []) a.healthy (refl, tt);
        })
    | inr full ↦
        rw full (record { counted = omega (arith, a.counted); fits = a.fits; healthy = a.healthy })
  ]

  step-Sound : (a b : Situation) → Step a b → Sound a → Sound b
  unfolding acquire_connection
  step-Sound a b (acquires p s lent) h =
      let (e, l, k) =
        clean_front-lem (io.now s) p.health_check_interval lent p.available p.total_created
          h.counted h.healthy in
      lend-Accounted lent p s _ _
        (record { counted = e; fits = omega (arith, l, h.fits); healthy = k })
  step-Sound a b (releases p s lent c healthy) h = release-Accounted (io.now s) lent p c healthy h
  step-Sound a b (counts p s lent) h = record {
    counted = h.counted;
    fits = h.fits;
    healthy = h.healthy;
  }
  step-Sound a b (network p s s' lent) h = h

  -- The accounts of a pool hold along every sequence of leases, releases and network events, from
  -- any situation where they hold: the counter is the number of connections that are idle or in use
  -- (modulo 2^64, the width of its type), the idle ones never exceed the pool's size, and all are
  -- healthy.
  pub Steps-Sound : (a b : Situation) → Steps a b → Sound a → Sound b
  Steps-Sound a b (stop _) h = h
  Steps-Sound a b (and_then _ m _ steps last) h = step-Sound m b last (Steps-Sound a m steps h)

  -- A new pool and a cloned one have no connection, and their accounts hold.
  pub new-Accounted :
      (endpoint : List ℕ) (unit_id size interval : ℕ) (p : ModbusConnectionPool io.Client)
      → Accounted 0 (new {Client = io.Client} endpoint unit_id size interval)
        × Accounted 0 (clone p)
  unfolding new clone
  new-Accounted endpoint unit_id size interval p = (
    record { counted = omega arith; fits = omega arith; healthy = tt },
    record { counted = omega arith; fits = omega arith; healthy = tt },
  )

module _ {F64 : Type 0} (js : Json F64) (io : Io) where
  execute_leased-Steps :
      (op : ModbusOp) (a : Situation io) (lent : ℕ) (l : Leased io)
      → Step io a (leased io lent l)
      → Steps io a ((execute_leased js io op l).0, (execute_leased js io op l).1.0, lent)
  unfolding execute_leased
  execute_leased-Steps op a lent (p, s, err e) first = and_then a _ _ (stop a) first
  execute_leased-Steps op a lent (p, s, ok c) first =
      let (s', r) = dispatch_op_static js io c p.unit_id op s in
      let counted = record p { transaction_id = (p.transaction_id + 1) % 2 ^ 16 } in
      and_then a _ _
        (and_then a _ _ (and_then a _ _ (and_then a _ _ (stop a) first) (counts p s (suc lent)))
          (network counted s s' (suc lent)))
        (releases counted s' lent c r.success)

  -- An operation of the pool is made of steps of the pool and gives back what it lends, on every
  -- outcome: as many connections are in use after it as before.
  pub execute_operation-Steps :
      (op : ModbusOp) (p : ModbusConnectionPool io.Client) (s : io.State) (lent : ℕ)
      → let (p', (s', r)) = execute_operation js io op p s in Steps io (p, s, lent) (p', s', lent)
  unfolding execute_operation
  execute_operation-Steps op p s lent =
      execute_leased-Steps op (p, s, lent) lent (acquire_connection io p s) (acquires p s lent)
