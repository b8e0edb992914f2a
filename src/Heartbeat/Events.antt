-- ===== src/Heartbeat/Events.antt =====
-- What a heartbeat round does to the states of the devices and which events it pushes
-- (workers/heartbeat_worker.rs).
use roboplc_middle.Prelude.{
  ℕ, ◌≡◌, ◌≢◌, Bool, true, false, String, List, [], ◌∷◌, none, some, arith, if◌then◌else◌, ◌⊎◌, inl,
  inr, Bool-cases, Option-cases,
}
use roboplc_middle.Prelude.Maps.{string_key, find, find-insert}
use roboplc_middle.Modbus.State.{DeviceEvent}
use roboplc_middle.Shared.{DeviceStatus}
use roboplc_middle.Heartbeat.{heartbeat_event, differs, update_device_status}

-- A report, at an instant and a time, of whether a device is connected: only that device's state
-- changes, if it is known, and an event is pushed exactly if its connection changes.
pub Reported :
    String
    → Bool
    → ℕ
    → ℕ
    → List (String × DeviceStatus)
    → List (String × DeviceStatus)
    → List DeviceEvent
    → Type 0
Reported id connected instant now states states' events =
    ((find id states ≡ none) × (states' ≡ states) × (events ≡ []))
    ⊎ ((status : DeviceStatus) × (find id states ≡ some status)
        × ((j : String)
            → find j states' ≡ (
                if string_key.beq id j
                then some (record status { connected = connected; last_communication = instant })
                else find j states))
        × (((status.connected ≡ connected) × (events ≡ []))
            ⊎ ((status.connected ≢ connected) × (events ≡ heartbeat_event id connected now ∷ []))))

differs-ne : (a b : Bool) → differs a b ≡ true → a ≢ b
differs-ne true b h e = ground arith
differs-ne false b h e = ground arith

same-eq : (a b : Bool) → differs a b ≡ false → a ≡ b
same-eq true b h = ground arith
same-eq false b h = ground arith

pub update-Reported :
    (id : String) (connected : Bool) (instant now : ℕ) (states : List (String × DeviceStatus))
    → let (states', events) = update_device_status id connected instant now states in
      Reported id connected instant now states states' events
unfolding Reported update_device_status
update-Reported id connected instant now states = elim (Option-cases (find id states)) [
  | inl e ↦ inl (e, rw (e, update_device_status), rw (e, update_device_status))
  | inr (status, e) ↦ inr (
    status,
    e,
    λ j. rw (e, update_device_status) (find-insert id j _ states),
    elim (Bool-cases (differs status.connected connected)) [
      | inl d ↦ inr (differs-ne _ _ d, rw (e, update_device_status) (rw d))
      | inr d ↦ inl (same-eq _ _ d, rw (e, update_device_status) (rw d))
    ],
  )
]
