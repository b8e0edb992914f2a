-- ===== src/Sse.antt =====
-- Server-sent events (workers/sse_worker.rs): the registry of connections and the worker that
-- routes updates to them. The channels of tokio are an interface.
pub mod Registry
pub mod Routing
pub mod Sample
mod Tests
use roboplc_middle.Prelude.{
  ℕ, ◌+◌, ◌-◌, ◌*◌, ◌%◌, ◌^◌, Bool, true, false, ◌&&◌, ◌||◌, String, List, [], ◌∷◌, map, Option,
  none, some, ltb, leb, if◌then◌else◌, length,
}
use roboplc_middle.Prelude.Text.{codes}
use roboplc_middle.Prelude.Json.{Json}
use roboplc_middle.Prelude.Maps.{codes_eq, string_key, nat_key, find, insert, remove}
use roboplc_middle.Messages.{Message, data_stream_update}
use roboplc_middle.Modbus.Io.{Outcome, ok, err}

pub data SseEventData (Value : Type 0) : Type 0 where
  json_data : Value → SseEventData Value
  heartbeat : SseEventData Value

-- What `try_send` of a channel gives.
pub data Offer : Type 0 where
  sent full closed : Offer

-- The bounded channels of tokio, over a state of all channels and of the clock.
pub record Channels (Value : Type 0) : Type 1 where
  pub Sender : Type 0
  pub State : Type 0
  -- `Instant::now` in microseconds
  pub instant : State → ℕ
  -- a new channel of a capacity
  pub channel : ℕ → State → State × Sender
  pub try_send : Sender → SseEventData Value → State → State × Offer

abbrev pub sse_heartbeat_interval_secs : ℕ
sse_heartbeat_interval_secs = 15

abbrev pub max_sse_connections : ℕ
max_sse_connections = 100

abbrev pub sse_channel_capacity : ℕ
sse_channel_capacity = 100

pub record SseConnection (Sender : Type 0) : Type 0 where
  pub device_id : String
  pub signal_groups : List (List ℕ)
  pub connected_at : ℕ
  pub sender : Sender

pub record SseConnectionRegistry (Sender : Type 0) : Type 0 where
  pub connections : List (ℕ × SseConnection Sender)
  pub next_id : ℕ

-- `any` of the groups.
abbrev pub any_group : List ℕ → List (List ℕ) → Bool
any_group g [] = false
any_group g (x ∷ xs) = codes_eq x g || any_group g xs

module _ {Sender : Type 0} where
  unfoldable pub is_subscribed_to : SseConnection Sender → String → Bool
  is_subscribed_to c signal_group = any_group (codes signal_group) c.signal_groups

  unfoldable pub new : SseConnectionRegistry Sender
  new = record { connections = []; next_id = 0 }

  unfoldable pub register :
      SseConnection Sender → SseConnectionRegistry Sender → SseConnectionRegistry Sender × Outcome ℕ
  register connection r =
      if leb max_sse_connections (length r.connections)
      then (r, err (codes "Maximum SSE connections limit reached (100). Rejecting new connection."))
      else (
        record {
          connections = insert r.next_id connection r.connections;
          next_id = (r.next_id + 1) % 2 ^ 64;
        },
        ok r.next_id,
      )

  -- `map` of the removed connection to its sender.
  abbrev sender_of : Option (SseConnection Sender) → Option Sender
  sender_of none = none
  sender_of (some c) = some c.sender

  unfoldable pub unregister :
      ℕ → SseConnectionRegistry Sender → SseConnectionRegistry Sender × Option Sender
  unregister id r =
      (record r { connections = remove id r.connections }, sender_of (find id r.connections))

  unfoldable pub count : SseConnectionRegistry Sender → ℕ
  count r = length r.connections

  -- The loop over `dead_connections`.
  unfoldable pub drop_dead : List ℕ → SseConnectionRegistry Sender → SseConnectionRegistry Sender
  unfolding unregister
  drop_dead [] r = r
  drop_dead (id ∷ ids) r = drop_dead ids (unregister id r).0

  unfoldable pub all_connection_ids : SseConnectionRegistry Sender → List ℕ
  all_connection_ids r = map (λ e. e.0) r.connections

  unfoldable pub clear : SseConnectionRegistry Sender → SseConnectionRegistry Sender
  clear r = record r { connections = [] }

module _ {Value : Type 0} (ch : Channels Value) where
  abbrev pub Entry : Type 0
  Entry = ℕ × SseConnection ch.Sender

  abbrev pub Registry : Type 0
  Registry = SseConnectionRegistry ch.Sender

  -- The channels, how many accepted the event, and the closed ones.
  abbrev pub Sends : Type 0
  Sends = ch.State × ℕ × List ℕ

  -- What an offer adds to what the rest of the walk gives.
  abbrev pub counted : ℕ → Offer → Sends → Sends
  counted id sent (s, n, dead) = (s, n + 1, dead)
  counted id full r = r
  counted id closed (s, n, dead) = (s, n, id ∷ dead)

  -- The walk over the connections; the wanted ones are offered the event.
  unfoldable pub offer_all :
      (SseConnection ch.Sender → Bool) → SseEventData Value → List Entry → ch.State → Sends
  offer_all wanted event [] s = (s, 0, [])
  offer_all wanted event ((id, c) ∷ rest) s =
      let (s', offer) = ch.try_send c.sender event s in
      let after = counted id offer (offer_all wanted event rest s') in
      let skipped = offer_all wanted event rest s in if wanted c then after else skipped

  abbrev pub cleaned : Registry → Sends → Registry × ch.State × ℕ
  unfolding drop_dead
  cleaned r (s, n, dead) = (drop_dead dead r, s, n)

  abbrev pub is_target : String → String → SseConnection ch.Sender → Bool
  unfolding is_subscribed_to
  is_target device_id signal_group c =
      string_key.beq c.device_id device_id && is_subscribed_to c signal_group

  unfoldable pub send_to_subscribers :
      String → String → SseEventData Value → Registry → ch.State → Registry × ch.State × ℕ
  unfolding offer_all
  send_to_subscribers device_id signal_group event r s =
      cleaned r (offer_all (is_target device_id signal_group) event r.connections s)

  unfoldable pub send_heartbeat_to_all : Registry → ch.State → Registry × ch.State × ℕ
  unfolding offer_all
  send_heartbeat_to_all r s = cleaned r (offer_all (λ c. true) heartbeat r.connections s)

pub record SseWorker : Type 0 where
  pub messages_received : ℕ
  pub messages_routed : ℕ
  pub last_heartbeat_check : ℕ  -- an instant, in microseconds

-- At an instant.
unfoldable pub new_worker : ℕ → SseWorker
new_worker instant = record {
  messages_received = 0;
  messages_routed = 0;
  last_heartbeat_check = instant;
}

module _ {F64 : Type 0} (js : Json F64) (ch : Channels js.Value) where
  abbrev pub Routed : Type 0
  Routed = SseWorker × Registry ch × ch.State

  -- The JSON of an update.
  abbrev pub sse_data : String → String → js.Value → ℕ → ℕ → ℕ → js.Value
  sse_data device_id signal_group values timestamp_ms latency_us sequence = js.object (
      ("device_id", js.of_str device_id)
      ∷ ("signal_group", js.of_str signal_group)
      ∷ ("values", values)
      ∷ ("timestamp_ms", js.of_u64 timestamp_ms)
      ∷ ("latency_us", js.of_u64 latency_us)
      ∷ ("sequence", js.of_u64 sequence)
      ∷ [])

  abbrev pub routed : SseWorker → Registry ch × ch.State × ℕ → Routed
  routed w (r, s, n) =
      (if ltb 0 n then record w { messages_routed = (w.messages_routed + n) % 2 ^ 64 } else w, r, s)

  -- With the message counted.
  abbrev pub route : Message js.Value → SseWorker → Registry ch → ch.State → Routed
  unfolding send_to_subscribers
  route (data_stream_update d g values t l n) w r s =
      routed w (send_to_subscribers ch d g (json_data (sse_data d g values t l n)) r s)
  route _ w r s = (w, r, s)

  unfoldable pub handle_data_stream_update :
      Message js.Value → SseWorker → Registry ch → ch.State → Routed
  handle_data_stream_update msg w r s =
      route msg (record w { messages_received = (w.messages_received + 1) % 2 ^ 64 }) r s

  abbrev pub beaten : SseWorker → Registry ch × ch.State × ℕ → Routed
  beaten w (r, s, n) = (w, r, s)

  unfoldable pub send_heartbeat_if_needed : SseWorker → Registry ch → ch.State → Routed
  unfolding send_heartbeat_to_all
  send_heartbeat_if_needed w r s =
      if leb (sse_heartbeat_interval_secs * 1000000) (ch.instant s - w.last_heartbeat_check)
      then beaten (record w { last_heartbeat_check = ch.instant s }) (send_heartbeat_to_all ch r s)
      else (w, r, s)

  -- The body of the loop of `run` for one message, while the worker is online.
  unfoldable pub step : Message js.Value → Routed → Routed
  unfolding handle_data_stream_update send_heartbeat_if_needed
  step msg (w, r, s) =
      let (w', r', s') = handle_data_stream_update msg w r s in send_heartbeat_if_needed w' r' s'
