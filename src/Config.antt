-- ===== src/Config.antt =====
-- The data types of config.rs: what a configuration file holds. An unsigned integer is a number,
-- its width in a comment. A text that the program walks is a list of code points.
pub mod Settings
pub mod Validate
use roboplc_middle.Prelude.{ℕ, ◌+◌, min, Bool, String, List}

pub data DataType : Type 0 where
  u16 u32 i16 i32 f32 f64 bool : DataType

pub data ByteOrder : Type 0 where
  big_endian little_endian little_endian_byte_swap mid_big : ByteOrder

pub data DeviceType : Type 0 where
  plc robot_arm : DeviceType

pub data AddressingMode : Type 0 where
  zero_based one_based : AddressingMode

pub record FieldMapping : Type 0 where
  pub name : String
  pub data_type : DataType
  pub offset : ℕ  -- u16

pub record SignalGroup : Type 0 where
  pub name : String
  pub description : String
  pub register_address : List ℕ
  pub register_count : ℕ  -- u16
  pub fields : List FieldMapping

pub record Device : Type 0 where
  pub id : String
  pub device_type : DeviceType
  pub address : String
  pub port : ℕ  -- u16
  pub unit_id : ℕ  -- u8
  pub addressing_mode : AddressingMode
  pub byte_order : ByteOrder
  pub tcp_nodelay : Bool
  pub max_concurrent_ops : ℕ  -- u8
  pub max_pool_size : ℕ  -- u8
  pub heartbeat_interval_sec : ℕ  -- u32
  pub pool_health_check_interval_sec : ℕ  -- u16
  pub signal_groups : List SignalGroup

pub record StreamConfig : Type 0 where
  pub device_id : String
  pub signal_group : String
  pub poll_interval_ms : ℕ  -- u32
  pub enabled : Bool
  pub priority : ℕ  -- u8

-- The parts of a configuration that its validation reads.
pub record Config : Type 0 where
  pub devices : List Device
  pub streams : List StreamConfig

-- `DataType::required_registers`
unfoldable pub required_registers : DataType → ℕ
required_registers u16 = 1
required_registers i16 = 1
required_registers bool = 1
required_registers u32 = 2
required_registers i32 = 2
required_registers f32 = 2
required_registers f64 = 4

-- `u16::saturating_add`
abbrev pub saturating_add16 : ℕ → ℕ → ℕ
saturating_add16 a b = min (a + b) 65535
