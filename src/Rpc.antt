-- ===== src/Rpc.antt =====
-- The JSON-RPC server (workers/rpc).
pub mod Framing
pub mod Handler
