-- ===== src/Modbus/Sample.antt =====
-- A network for tests: its state counts the calls, and the transfer at the count 2 finds the
-- connection broken. A device and a group.
use roboplc_middle.Prelude.{ℕ, ◌+◌, arith, true, [], ◌∷◌, ◌==◌, if◌then◌else◌}
use roboplc_middle.Prelude.Text.{codes}
use roboplc_middle.Config.{f32, SignalGroup, Device, plc, zero_based, big_endian}
use roboplc_middle.Modbus.Io.{Io, Outcome, ok, err}
use roboplc_middle.Modbus.Client.Results.{Meter}

abbrev pub transfer : {A : Type 0} → A → ℕ → ℕ × Outcome A
transfer a s = (s + 1, if s == 2 then err (codes "I/O error") else ok a)

abbrev pub sample_io : Io
sample_io = record {
  State = ℕ;
  Client = ℕ;
  Mapping = Unit {0};
  now = λ s. s;
  connect = λ endpoint t s. (s + 1, ok s);
  create = λ c u k a n s. (s + 1, ok tt);
  read_bytes = λ m s. transfer (0 ∷ 255 ∷ []) s;
  read_words = λ m s. transfer (7 ∷ 8 ∷ []) s;
  write_word = λ m v s. transfer tt s;
  write_bytes = λ m vs s. transfer tt s;
  write_words = λ m vs s. transfer tt s;
}

abbrev pub sample_meter : Meter sample_io
sample_meter = record {
  reading = λ s. s;
  connect_cost = 1;
  create_cost = 1;
  transfer_cost = 1;
  connect_le = λ endpoint t s. omega arith;
  create_le = λ c u k a n s. omega arith;
  read_bytes_le = λ m s. omega arith;
  read_words_le = λ m s. omega arith;
  write_word_le = λ m v s. omega arith;
  write_bytes_le = λ m vs s. omega arith;
  write_words_le = λ m vs s. omega arith;
}

abbrev pub sample_group : SignalGroup
sample_group = record {
  name = "temps";
  description = "";
  register_address = codes "h10";
  register_count = 2;
  fields = record { name = "t1"; data_type = f32; offset = 0 } ∷ [];
}

abbrev pub sample_device : Device
sample_device = record {
  id = "plc-1";
  device_type = plc;
  address = "10.0.0.2";
  port = 502;
  unit_id = 1;
  addressing_mode = zero_based;
  byte_order = big_endian;
  tcp_nodelay = true;
  max_concurrent_ops = 2;
  max_pool_size = 5;
  heartbeat_interval_sec = 30;
  pool_health_check_interval_sec = 30;
  signal_groups = sample_group ∷ [];
}
