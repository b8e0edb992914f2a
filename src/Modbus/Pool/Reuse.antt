-- ===== src/Modbus/Pool/Reuse.antt =====
-- Which connection `acquire_connection` (workers/modbus/client.rs) lends, and what it leaves.
use roboplc_middle.Prelude.{
  ℕ, zero, suc, ◌≡◌, refl, true, false, List, [], ◌∷◌, ◌++◌, length, All, Bool-cases, inl, inr,
}
use roboplc_middle.Modbus.Io.{Io, ok}
use roboplc_middle.Modbus.Pool.{
  PooledConnection, ModbusConnectionPool, is_fresh, clean_front, Leased, create_connection, lend,
  acquire_connection, decrement,
}

-- The counter after `n` connections were dropped.
abbrev pub dropped : ℕ → ℕ → ℕ
dropped zero total = total
dropped (suc n) total = dropped n (decrement total)

module _ {Client : Type 0} (now interval : ℕ) where
  abbrev pub Fresh : PooledConnection Client → Type 0
  Fresh c = is_fresh now interval c ≡ true

  abbrev pub Stale : PooledConnection Client → Type 0
  Stale c = is_fresh now interval c ≡ false

  -- A list is stale connections, and then a fresh one comes first, or nothing.
  pub data Split : List (PooledConnection Client) → Type 0 where
    all_stale : (cs : List (PooledConnection Client)) → All Stale cs → Split cs
    fresh_at :
        (old : List (PooledConnection Client)) (c : PooledConnection Client)
        (rest : List (PooledConnection Client))
        → All Stale old
        → Fresh c
        → Split (old ++ c ∷ rest)

  pub split : (cs : List (PooledConnection Client)) → Split cs
  split [] = all_stale [] tt
  split (c ∷ cs) = elim (Bool-cases (is_fresh now interval c)) [
    | inl f ↦ fresh_at [] c cs tt f
    | inr s ↦ split_stale c cs s (split cs)
  ]
    where
      split_stale :
          (c : PooledConnection Client) (cs : List (PooledConnection Client))
          → Stale c
          → Split cs
          → Split (c ∷ cs)
      split_stale c cs s (all_stale _ h) = all_stale (c ∷ cs) (s, h)
      split_stale c _ s (fresh_at old d rest h f) = fresh_at (c ∷ old) d rest (s, h) f

  clean_front-Stale :
      (old rest : List (PooledConnection Client)) (total : ℕ)
      → All Stale old
      → clean_front now interval (old ++ rest) total
        ≡ clean_front now interval rest (dropped (length old) total)
  unfolding clean_front
  clean_front-Stale [] rest total h = refl
  clean_front-Stale (c ∷ old) rest total (s, h) =
      rw s (clean_front-Stale old rest (decrement total) h)

  clean_front-none :
      (cs : List (PooledConnection Client)) (total : ℕ)
      → All Stale cs
      → clean_front now interval cs total ≡ ([], dropped (length cs) total)
  unfolding clean_front
  clean_front-none [] total h = refl
  clean_front-none (c ∷ cs) total (s, h) = rw s (clean_front-none cs (decrement total) h)

  clean_front-Fresh :
      (c : PooledConnection Client) (rest : List (PooledConnection Client)) (total : ℕ)
      → Fresh c
      → clean_front now interval (c ∷ rest) total ≡ (c ∷ rest, total)
  unfolding clean_front
  clean_front-Fresh c rest total f = rw f refl

module _ (io : Io) where
  -- What `acquire_connection` gives.
  pub data Lease (p : ModbusConnectionPool io.Client) (s : io.State) : Leased io → Type 0 where
    reused :
        (old : List (PooledConnection io.Client)) (c : PooledConnection io.Client)
        (rest : List (PooledConnection io.Client))
        → p.available ≡ old ++ c ∷ rest
        → All (Stale (io.now s) p.health_check_interval) old
        → Fresh (io.now s) p.health_check_interval c
        → Lease p s (
          record p { available = rest; total_created = dropped (length old) p.total_created },
          s,
          ok c.client,
        )
    opened :
        (old : List (PooledConnection io.Client))
        → p.available ≡ old
        → All (Stale (io.now s) p.health_check_interval) old
        → Lease p s (
            create_connection io
              (record p { available = []; total_created = dropped (length old) p.total_created })
              s)

  Lease-Split :
      (p : ModbusConnectionPool io.Client) (s : io.State) (cs : List (PooledConnection io.Client))
      → p.available ≡ cs
      → Split (io.now s) p.health_check_interval cs
      → Lease p s (lend io p s (clean_front (io.now s) p.health_check_interval cs p.total_created))
  unfolding create_connection
  Lease-Split p s cs e (all_stale _ h) =
      rw (clean_front-none (io.now s) p.health_check_interval cs p.total_created h) (opened cs e h)
  Lease-Split p s _ e (fresh_at old c rest h f) =
      let total = dropped (length old) p.total_created in
      rw
        (
          clean_front-Stale (io.now s) p.health_check_interval old (c ∷ rest) p.total_created h,
          clean_front-Fresh (io.now s) p.health_check_interval c rest total f,
        )
        (reused old c rest e h f)

  -- `acquire_connection` drops exactly the stale connections before the first fresh one and lends
  -- that one, with no use of the network; where all are stale it drops all and opens a new one.
  pub acquire_connection-Lease :
      (p : ModbusConnectionPool io.Client) (s : io.State) → Lease p s (acquire_connection io p s)
  unfolding acquire_connection
  acquire_connection-Lease p s =
      Lease-Split p s p.available refl (split (io.now s) p.health_check_interval p.available)
