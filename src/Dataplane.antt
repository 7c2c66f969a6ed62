-- ===== src/Dataplane.antt =====
-- crates/ub-dataplane/src/lib.rs: the verb engine.
pub mod Frames
pub mod State
pub mod Handlers
pub mod Atomics
pub mod Dispatch
pub mod Calls
pub mod Holds
pub mod GivesBack
pub mod Returned
pub mod Remote
pub mod Errors
pub mod Answers
pub mod Sessions
pub mod Replays
