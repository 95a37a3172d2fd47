-- ===== src/Rpc.antt =====
-- protocol/rpc: the transport of calls and replies, and what a connection runs for each call.
pub mod Tracker
pub mod Wire
pub mod Queue
pub mod Dispatch
