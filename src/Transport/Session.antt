-- ===== src/Transport/Session.antt =====
-- crates/ub-transport/src/session.rs: one reliable session with a peer.
pub mod State
pub mod Sending
pub mod Receiving
pub mod Executed
pub mod Deliveries
pub mod Acks
pub mod Sack
pub mod Queue
pub mod Timeout
