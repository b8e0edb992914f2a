-- ===== src/Shared.antt =====
-- The variables that the workers share (lib.rs): the data cache and the status of the devices.
mod Tests
use roboplc_middle.Prelude.{
  ℕ, ◌-◌, ◌/◌, ◌%◌, ◌^◌, Bool, false, String, List, [], Option, none, some, leb,
}
use roboplc_middle.Prelude.Maps.{string_key, find, insert}

pub record DeviceStatus : Type 0 where
  pub connected : Bool
  pub last_communication : ℕ  -- an instant, in microseconds
  pub error_count : ℕ  -- u32
  pub reconnect_count : ℕ  -- u32

pub record DataCacheEntry (Value : Type 0) : Type 0 where
  pub values : Value
  pub timestamp_ms : ℕ
  pub latency_us : ℕ
  pub error : Bool

-- `SystemTime::now` in milliseconds as u64, from the clock in microseconds.
abbrev pub millis : ℕ → ℕ
millis now = now / 1000 % 2 ^ 64

abbrev pub DataCache : Type 0 → Type 0
DataCache Value = List (String × DataCacheEntry Value)

module _ {Value : Type 0} where
  unfoldable pub new : DataCache Value
  new = []

  unfoldable pub get : String → DataCache Value → Option (DataCacheEntry Value)
  get k cache = find k cache

  unfoldable pub set : String → DataCacheEntry Value → DataCache Value → DataCache Value
  set k entry cache = insert k entry cache

  -- The age at a time in microseconds.
  unfoldable pub get_age : String → ℕ → DataCache Value → Option ℕ
  get_age k now cache = elim (find k cache) [
    | none ↦ none
    | some entry ↦ some (millis now - entry.timestamp_ms)
  ]

  unfoldable pub is_fresh : String → ℕ → ℕ → DataCache Value → Bool
  unfolding get_age
  is_fresh k ttl_ms now cache = elim (get_age k now cache) [
    | none ↦ false
    | some age ↦ leb age ttl_ms
  ]
