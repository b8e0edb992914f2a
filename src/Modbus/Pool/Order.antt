-- ===== src/Modbus/Pool/Order.antt =====
-- The order of the idle connections of a pool (workers/modbus/client.rs), and what it is good for.
use roboplc_middle.Prelude.{
  ℕ, ◌≤◌, ◌≡◌, refl, arith, Bool, true, false, List, [], ◌∷◌, length, push_back, ltb, All,
  All-append, All-map, Bool-cases, inl, inr,
}
use roboplc_middle.Modbus.Io.{Io, Outcome, ok, err}
use roboplc_middle.Modbus.Client.Retry.{default_connect_timeout}
use roboplc_middle.Modbus.Pool.{
  PooledConnection, ModbusConnectionPool, age, is_fresh, clean_front, release_connection, created,
  create_connection, lend, acquire_connection, decrement,
}
use roboplc_middle.Modbus.Pool.Reuse.{Fresh}

module _ {Client : Type 0} where
  -- Older connections come first.
  abbrev pub Sorted : List (PooledConnection Client) → Type 0
  Sorted [] = Unit {0}
  Sorted (c ∷ cs) = All (λ d. c.last_used ≤ d.last_used) cs × Sorted cs

  -- Idle connections: healthy, in the order of their use, which is past.
  pub record Idle (now : ℕ) (cs : List (PooledConnection Client)) : Type 0 where
    pub healthy : All (λ c. c.is_healthy ≡ true) cs
    pub sorted : Sorted cs
    pub past : All (λ c. c.last_used ≤ now) cs

module _ {Client : Type 0} (now interval : ℕ) where
  younger-Fresh :
      (c : PooledConnection Client) (ds : List (PooledConnection Client))
      → Fresh now interval c
      → All (λ d. d.is_healthy ≡ true) ds
      → All (λ d. c.last_used ≤ d.last_used) ds
      → All (Fresh now interval) ds
  unfolding age
  younger-Fresh c [] f hs ls = tt
  younger-Fresh c (d ∷ ds) f (h, hs) (l, ls) =
      (rw h (ground (arith, f, l)), younger-Fresh c ds f hs ls)

  clean_front-Idle :
      (cs : List (PooledConnection Client)) (total : ℕ)
      → Idle now cs
      → Idle now (clean_front now interval cs total).0
        × All (Fresh now interval) (clean_front now interval cs total).0
  unfolding clean_front
  clean_front-Idle [] total i = (i, tt)
  clean_front-Idle (c ∷ cs) total i = elim (Bool-cases (is_fresh now interval c)) [
    | inl f ↦ rw f (i, (f, younger-Fresh c cs f i.healthy.1 i.sorted.0))
    | inr s ↦ rw s (
        clean_front-Idle cs (decrement total)
          (record { healthy = i.healthy.1; sorted = i.sorted.1; past = i.past.1 }))
  ]

module _ {Client : Type 0} where
  push-Sorted :
      (cs : List (PooledConnection Client)) (c : PooledConnection Client)
      → Sorted cs
      → All (λ d. d.last_used ≤ c.last_used) cs
      → Sorted (push_back cs c)
  push-Sorted [] c s h = (tt, tt)
  push-Sorted (d ∷ cs) c (a, s) (l, h) =
      (All-append (λ e. d.last_used ≤ e.last_used) cs (c ∷ []) a (l, tt), push-Sorted cs c s h)

  past-Idle :
      (now later : ℕ) (cs : List (PooledConnection Client))
      → Idle now cs
      → now ≤ later
      → Idle later cs
  past-Idle now later cs i h = record {
    healthy = i.healthy;
    sorted = i.sorted;
    past =
        All-map (λ c. c.last_used ≤ now) (λ c. c.last_used ≤ later) cs (λ c l. omega arith) i.past;
  }

  release-Idle :
      (now later : ℕ) (p : ModbusConnectionPool Client) (c : Client) (healthy : Bool)
      → Idle now p.available
      → now ≤ later
      → Idle later (release_connection later p c healthy).available
  unfolding release_connection
  release-Idle now later p c false i h = past-Idle now later p.available i h
  release-Idle now later p c true i h =
      let back : PooledConnection Client = record {
        client = c;
        last_used = later;
        is_healthy = true;
      } in
      let j = past-Idle now later p.available i h in
      elim (Bool-cases (ltb (length p.available) p.pool_size)) [
        | inl room ↦ rw room (record {
          healthy =
              All-append (λ d. d.is_healthy ≡ true) p.available (back ∷ []) j.healthy (refl, tt);
          sorted = push-Sorted p.available back j.sorted j.past;
          past =
              All-append (λ d. d.last_used ≤ later) p.available (back ∷ []) j.past
                (omega arith, tt);
        })
        | inr full ↦ rw full j
      ]

module _ (io : Io) where
  lend-Idle :
      (now interval : ℕ) (p : ModbusConnectionPool io.Client) (s : io.State)
      (cs : List (PooledConnection io.Client)) (total : ℕ)
      → Idle now cs
      → All (Fresh now interval) cs
      → Idle now (lend io p s (cs, total)).0.available
        × All (Fresh now interval) (lend io p s (cs, total)).0.available
  unfolding create_connection
  lend-Idle now interval p s (c ∷ cs) total i (f, fs) =
      (record { healthy = i.healthy.1; sorted = i.sorted.1; past = i.past.1 }, fs)
  lend-Idle now interval p s [] total i f =
      created-Idle (io.connect p.endpoint default_connect_timeout s)
    where
      created-Idle :
          (o : io.State × Outcome io.Client)
          → Idle now (created io (record p { available = []; total_created = total }) o).0.available
            × All
                (Fresh now interval)
                (created io (record p { available = []; total_created = total }) o).0.available
      created-Idle (s', ok c) = (i, tt)
      created-Idle (s', err e) = (i, tt)

  -- The loop looks at the front only, and that is enough: when the idle connections are healthy and
  -- stand in the order of their use, so do those that `acquire_connection` leaves, and all of them
  -- are fresh; `release_connection` at a later time keeps that order, whatever it is given.
  pub acquire_connection-Idle :
      (p : ModbusConnectionPool io.Client) (s : io.State) (later : ℕ) (c : io.Client)
      (healthy : Bool)
      → Idle (io.now s) p.available
      → io.now s ≤ later
      → let left = (acquire_connection io p s).0.available in
        Idle (io.now s) left
        × All (Fresh (io.now s) p.health_check_interval) left
        × Idle later (release_connection later p c healthy).available
  unfolding acquire_connection
  acquire_connection-Idle p s later c healthy i h =
      let (j, f) =
        clean_front-Idle (io.now s) p.health_check_interval p.available p.total_created i in
      let (k, g) = lend-Idle (io.now s) p.health_check_interval p s _ _ j f in
      (k, g, release-Idle (io.now s) later p c healthy i h)
