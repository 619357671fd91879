-- ===== src/Dipper.antt =====
-- pkg/dipper: the helpers that every service and driver of the daemon uses.
pub mod MapData
pub mod LockMap
pub mod Copy
pub mod Merge
pub mod Condition
pub mod IdMap
pub mod Message
pub mod Command
pub mod Rpc
pub mod Interpolate
pub mod Recursive
