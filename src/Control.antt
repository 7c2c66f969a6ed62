-- ===== src/Control.antt =====
-- crates/ub-control: the messages of the control plane, and the members.
pub mod Cursor
pub mod Message
pub mod Framing
pub mod ControlMsg
pub mod Member
pub mod Plane
pub mod Heartbeat
