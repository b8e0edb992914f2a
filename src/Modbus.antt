-- ===== src/Modbus.antt =====
-- The Modbus worker (workers/modbus): a module for each part of its files.
pub mod Parsing
pub mod Backoff
pub mod Timeout
pub mod Queue
pub mod Address
pub mod Io
pub mod Client
pub mod Pool
pub mod Sample
pub mod State
pub mod Handler
pub mod Worker
