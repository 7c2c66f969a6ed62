-- ===== src/Control/Message.antt =====
-- crates/ub-control/src/message.rs: the payloads of the control messages, one module each.
pub mod Hello
pub mod Heartbeat
pub mod MrPublish
pub mod MrRevoke
pub mod MemberDown
pub mod Join
pub mod AllocReq
pub mod AllocResp
pub mod RegionCreate
pub mod RegionCreateOk
pub mod RegionDelete
pub mod Fetch
pub mod FetchResp
pub mod WriteLockReq
pub mod WriteLockGranted
pub mod WriteUnlock
pub mod Invalidate
pub mod InvalidateAck
pub mod DeviceProfileEntry
pub mod MemberSnapshot
pub mod DeviceProfilePublish
