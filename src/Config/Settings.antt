-- ===== src/Config/Settings.antt =====
-- The settings of a configuration that its validation does not read, with their defaults, and the
-- comparison of its streams (config.rs).
use text.Mathlib.Text.{◌==◌ as str_eq}
use text.Mathlib.TextEquality.{eq_iff}
use mathlib.Core.Logic.{ite}
use native.Mathlib.Decide.{ℕ_discrete}
use roboplc_middle.Prelude.{
  ℕ, suc, ◌==◌, ◌≡◌, ◌↔◌, refl, Bool, true, false, ◌||◌, not, String, List, [], ◌∷◌, inl, inr,
  arith, Bool-cases, length,
}
use roboplc_middle.Config.{StreamConfig, Config}

pub record StreamSettings : Type 0 where
  pub max_concurrent_streams : ℕ  -- u32
  pub cache_ttl_ms : ℕ  -- u32
  pub enable_websocket : Bool
  pub websocket_port : ℕ  -- u16

unfoldable pub default_stream_settings : StreamSettings
default_stream_settings = record {
  max_concurrent_streams = 100;
  cache_ttl_ms = 5000;
  enable_websocket = true;
  websocket_port = 8082;
}

-- Each a u16.
pub record Timeouts : Type 0 where
  pub connect_timeout_ms : ℕ
  pub operation_timeout_ms : ℕ
  pub max_operation_timeout_ms : ℕ
  pub hub_send_timeout_ms : ℕ
  pub heartbeat_timeout_ms : ℕ
  pub pool_health_check_interval_sec : ℕ

unfoldable pub default_timeouts : Timeouts
default_timeouts = record {
  connect_timeout_ms = 200;
  operation_timeout_ms = 1000;
  max_operation_timeout_ms = 30000;
  hub_send_timeout_ms = 2000;
  heartbeat_timeout_ms = 1000;
  pool_health_check_interval_sec = 30;
}

pub record Server : Type 0 where
  pub rpc_port : ℕ  -- u16
  pub http_port : ℕ  -- u16
  pub rpc_worker_threads : ℕ  -- usize
  pub rpc_max_blocking_threads : ℕ  -- usize

-- `derive(Default)`, for a configuration without a server.
unfoldable pub default_server : Server
default_server = record {
  rpc_port = 0;
  http_port = 0;
  rpc_worker_threads = 0;
  rpc_max_blocking_threads = 0;
}

abbrev pub default_rpc_worker_threads : ℕ
default_rpc_worker_threads = 4

abbrev pub default_rpc_max_blocking_threads : ℕ
default_rpc_max_blocking_threads = 128

text_discrete : Discrete String
text_discrete s t = elim (Bool-cases (str_eq s t)) [
  | inl e ↦ yes ((eq_iff s t).0 e)
  | inr e ↦ no (λ same. ground (arith, (eq_iff s t).1 same, e))
]

-- The derived `==`.
pub StreamConfig-discrete : Discrete StreamConfig
StreamConfig-discrete = hlevel (text_discrete, ℕ_discrete)

-- `zip(..).any(|(a, b)| a != b)`
unfoldable pub any_differs : List StreamConfig → List StreamConfig → Bool
any_differs (x ∷ xs) (y ∷ ys) =
    let rest = any_differs xs ys in ite (StreamConfig-discrete x y) rest true
any_differs _ _ = false

unfoldable pub streams_differ : Config → List StreamConfig → Bool
unfolding any_differs
streams_differ c other = not (length c.streams == length other) || any_differs c.streams other

cons_iff :
    (x y : StreamConfig) (xs ys : List StreamConfig) (even rest : Bool) (d : Dec (x ≡ y))
    → ((not even || rest) ≡ false) ↔ (xs ≡ ys)
    → ((not even || ite d rest true) ≡ false) ↔ (x ∷ xs ≡ y ∷ ys)
cons_iff x y xs ys even rest (yes e) h =
    (λ none_differs. cc (h.0 none_differs), λ same. h.1 (cc same))
cons_iff x y xs ys true rest (no d) h = (λ e. cc, λ same. absurd (d cc))
cons_iff x y xs ys false rest (no d) h = (λ e. cc, λ same. absurd (d cc))

any_differs_iff :
    (xs ys : List StreamConfig)
    → ((not (length xs == length ys) || any_differs xs ys) ≡ false) ↔ (xs ≡ ys)
unfolding any_differs
any_differs_iff [] [] = (λ e. refl, λ e. refl)
any_differs_iff [] (y ∷ ys) = ground arith
any_differs_iff (x ∷ xs) [] = ground arith
any_differs_iff (x ∷ xs) (y ∷ ys) =
    let same : (suc (length xs) == suc (length ys)) ≡ (length xs == length ys) = ground arith in
    rw same (
      cons_iff x y xs ys (length xs == length ys) (any_differs xs ys) (StreamConfig-discrete x y)
        (any_differs_iff xs ys))

-- Streams differ unless they are equal one by one, in order.
pub streams_differ_iff :
    (c : Config) (other : List StreamConfig)
    → (streams_differ c other ≡ false) ↔ (c.streams ≡ other)
unfolding streams_differ
streams_differ_iff c other = any_differs_iff c.streams other
