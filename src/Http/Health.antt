-- ===== src/Http/Health.antt =====
-- The health check (workers/http_worker.rs).
use roboplc_middle.Prelude.{
  ℕ, ◌+◌, ◌<◌, ◌≡◌, ◌↔◌, if◌then◌else◌, Bool, true, false, String, [], ◌∷◌, length, All,
}
use roboplc_middle.Prelude.Json.{Json}
use roboplc_middle.Http.{DeviceStates}

-- The number of the devices whose connection is as given.
unfoldable pub number_of : Bool → DeviceStates → ℕ
number_of b [] = 0
number_of true ((id, status) ∷ rest) =
    let n = number_of true rest in if status.connected then n + 1 else n
number_of false ((id, status) ∷ rest) =
    let n = number_of false rest in if status.connected then n else n + 1

-- All devices are connected, or not connected.
abbrev pub AllAre : Bool → DeviceStates → Type 0
AllAre b states = All (λ e. e.1.connected ≡ b) states

-- What a status says of the devices.
pub Classified : String → DeviceStates → Type 0
Classified status states =
    ((status ≡ "healthy") ↔ ((0 < length states) × AllAre true states))
    × ((status ≡ "unhealthy") ↔ AllAre false states)
    × ((status ≡ "degraded") ↔ ((¬ AllAre true states) × (¬ AllAre false states)))
