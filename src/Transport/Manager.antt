-- ===== src/Transport/Manager.antt =====
-- crates/ub-transport/src/manager.rs: the sessions with all peers, and the frames between them.
pub mod State
pub mod Frames
pub mod Send
pub mod Operations
pub mod Handlers
pub mod Timer
pub mod Executed
pub mod Effects
pub mod Delivery
pub mod AtMostOnce
pub mod Acks
pub mod Calls
