-- ===== src/Sse/Sample.antt =====
-- Channels for tests: the sender 0 takes what it is offered, 1 is full and any other closed. The
-- state is the offers made, by their senders, and the clock in microseconds.
use roboplc_middle.Prelude.{ℕ, String, List, [], ◌∷◌, ◌==◌, if◌then◌else◌}
use roboplc_middle.Prelude.Text.{codes}
use roboplc_middle.Prelude.Sample.{Tree}
use roboplc_middle.Sse.{Channels, SseConnection, SseConnectionRegistry, sent, full, closed}

abbrev pub sample_channels : Channels Tree
sample_channels = record {
  Sender = ℕ;
  State = List ℕ × ℕ;
  instant = λ s. s.1;
  channel = λ n s. (s, 0);
  try_send = λ k e s. ((k ∷ s.0, s.1), if k == 0 then sent else if k == 1 then full else closed);
}

abbrev pub connection : String → ℕ → SseConnection ℕ
connection device_id sender = record {
  device_id = device_id;
  signal_groups = codes "speed" ∷ codes "torque" ∷ [];
  connected_at = 1000;
  sender = sender;
}

-- Three connections for one device and one for another.
abbrev pub sample_registry : SseConnectionRegistry ℕ
sample_registry = record {
  connections =
      (0, connection "plc-1" 0)
      ∷ (1, connection "plc-1" 1)
      ∷ (2, connection "plc-2" 2)
      ∷ (3, connection "plc-1" 3)
      ∷ [];
  next_id = 4;
}
