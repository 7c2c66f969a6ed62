-- ===== src/Control/ControlMsg.antt =====
-- crates/ub-control/src/message.rs: `ControlMsg`, a control message with its payload, and its
-- bytes.
pub mod Total
pub mod RoundTrip
pub mod Rejection
use unibus_toy.Base.{ℕ, List}
use unibus_toy.Core.Error.{Result, ok, ◌>>=◌}
use unibus_toy.Control.Framing
use unibus_toy.Control.Framing.{CtrlMsgType, encode_ctrl_message, decode_ctrl_message}
use unibus_toy.Control.Message.AllocReq
use unibus_toy.Control.Message.AllocResp
use unibus_toy.Control.Message.DeviceProfilePublish
use unibus_toy.Control.Message.Fetch
use unibus_toy.Control.Message.FetchResp
use unibus_toy.Control.Message.Heartbeat
use unibus_toy.Control.Message.Hello
use unibus_toy.Control.Message.Invalidate
use unibus_toy.Control.Message.InvalidateAck
use unibus_toy.Control.Message.Join
use unibus_toy.Control.Message.MemberDown
use unibus_toy.Control.Message.MemberSnapshot
use unibus_toy.Control.Message.MrPublish
use unibus_toy.Control.Message.MrRevoke
use unibus_toy.Control.Message.RegionCreate
use unibus_toy.Control.Message.RegionCreateOk
use unibus_toy.Control.Message.RegionDelete
use unibus_toy.Control.Message.WriteLockGranted
use unibus_toy.Control.Message.WriteLockReq
use unibus_toy.Control.Message.WriteUnlock
use unibus_toy.Control.Message.AllocReq.{AllocReqPayload}
use unibus_toy.Control.Message.AllocResp.{AllocRespPayload}
use unibus_toy.Control.Message.DeviceProfilePublish.{DeviceProfilePublishPayload}
use unibus_toy.Control.Message.Fetch.{FetchPayload}
use unibus_toy.Control.Message.FetchResp.{FetchRespPayload}
use unibus_toy.Control.Message.Heartbeat.{HeartbeatPayload}
use unibus_toy.Control.Message.Hello.{HelloPayload}
use unibus_toy.Control.Message.Invalidate.{InvalidatePayload}
use unibus_toy.Control.Message.InvalidateAck.{InvalidateAckPayload}
use unibus_toy.Control.Message.Join.{JoinPayload}
use unibus_toy.Control.Message.MemberDown.{MemberDownPayload}
use unibus_toy.Control.Message.MemberSnapshot.{MemberSnapshotPayload}
use unibus_toy.Control.Message.MrPublish.{MrPublishPayload}
use unibus_toy.Control.Message.MrRevoke.{MrRevokePayload}
use unibus_toy.Control.Message.RegionCreate.{RegionCreatePayload}
use unibus_toy.Control.Message.RegionCreateOk.{RegionCreateOkPayload}
use unibus_toy.Control.Message.RegionDelete.{RegionDeletePayload}
use unibus_toy.Control.Message.WriteLockGranted.{WriteLockGrantedPayload}
use unibus_toy.Control.Message.WriteLockReq.{WriteLockReqPayload}
use unibus_toy.Control.Message.WriteUnlock.{WriteUnlockPayload}

pub data ControlMsg : Type 0 where
  hello : HelloPayload → ControlMsg
  hello_ack : HelloPayload → ControlMsg
  member_up : HelloPayload → ControlMsg
  member_down : MemberDownPayload → ControlMsg
  member_snapshot : MemberSnapshotPayload → ControlMsg
  mr_publish : MrPublishPayload → ControlMsg
  mr_revoke : MrRevokePayload → ControlMsg
  heartbeat : HeartbeatPayload → ControlMsg
  heartbeat_ack : HeartbeatPayload → ControlMsg
  join : JoinPayload → ControlMsg
  device_profile_publish : DeviceProfilePublishPayload → ControlMsg
  alloc_req : AllocReqPayload → ControlMsg
  alloc_resp : AllocRespPayload → ControlMsg
  region_create : RegionCreatePayload → ControlMsg
  region_create_ok : RegionCreateOkPayload → ControlMsg
  region_delete : RegionDeletePayload → ControlMsg
  fetch : FetchPayload → ControlMsg
  fetch_resp : FetchRespPayload → ControlMsg
  write_lock_req : WriteLockReqPayload → ControlMsg
  write_lock_granted : WriteLockGrantedPayload → ControlMsg
  write_unlock : WriteUnlockPayload → ControlMsg
  invalidate : InvalidatePayload → ControlMsg
  invalidate_ack : InvalidateAckPayload → ControlMsg

unfoldable pub msg_type : ControlMsg → CtrlMsgType
msg_type (hello _) = Framing.hello
msg_type (hello_ack _) = Framing.hello_ack
msg_type (member_up _) = Framing.member_up
msg_type (member_down _) = Framing.member_down
msg_type (member_snapshot _) = Framing.member_snapshot
msg_type (mr_publish _) = Framing.mr_publish
msg_type (mr_revoke _) = Framing.mr_revoke
msg_type (heartbeat _) = Framing.heartbeat
msg_type (heartbeat_ack _) = Framing.heartbeat_ack
msg_type (join _) = Framing.join
msg_type (device_profile_publish _) = Framing.device_profile_publish
msg_type (alloc_req _) = Framing.alloc_req
msg_type (alloc_resp _) = Framing.alloc_resp
msg_type (region_create _) = Framing.region_create
msg_type (region_create_ok _) = Framing.region_create_ok
msg_type (region_delete _) = Framing.region_delete
msg_type (fetch _) = Framing.fetch
msg_type (fetch_resp _) = Framing.fetch_resp
msg_type (write_lock_req _) = Framing.write_lock_req
msg_type (write_lock_granted _) = Framing.write_lock_granted
msg_type (write_unlock _) = Framing.write_unlock
msg_type (invalidate _) = Framing.invalidate
msg_type (invalidate_ack _) = Framing.invalidate_ack

unfoldable pub encode_payload : ControlMsg → List ℕ
encode_payload (hello p) = Hello.encode p
encode_payload (hello_ack p) = Hello.encode p
encode_payload (member_up p) = Hello.encode p
encode_payload (member_down p) = MemberDown.encode p
encode_payload (member_snapshot p) = MemberSnapshot.encode p
encode_payload (mr_publish p) = MrPublish.encode p
encode_payload (mr_revoke p) = MrRevoke.encode p
encode_payload (heartbeat p) = Heartbeat.encode p
encode_payload (heartbeat_ack p) = Heartbeat.encode p
encode_payload (join p) = Join.encode p
encode_payload (device_profile_publish p) = DeviceProfilePublish.encode p
encode_payload (alloc_req p) = AllocReq.encode p
encode_payload (alloc_resp p) = AllocResp.encode p
encode_payload (region_create p) = RegionCreate.encode p
encode_payload (region_create_ok p) = RegionCreateOk.encode p
encode_payload (region_delete p) = RegionDelete.encode p
encode_payload (fetch p) = Fetch.encode p
encode_payload (fetch_resp p) = FetchResp.encode p
encode_payload (write_lock_req p) = WriteLockReq.encode p
encode_payload (write_lock_granted p) = WriteLockGranted.encode p
encode_payload (write_unlock p) = WriteUnlock.encode p
encode_payload (invalidate p) = Invalidate.encode p
encode_payload (invalidate_ack p) = InvalidateAck.encode p

unfoldable pub encode : ControlMsg → List ℕ
encode m = encode_ctrl_message (msg_type m) (encode_payload m)

-- The match of `decode` on the type of the message.
unfoldable pub decode_payload : CtrlMsgType → List ℕ → Result ControlMsg
decode_payload Framing.hello payload = do p ← Hello.decode payload; ok (hello p)
decode_payload Framing.hello_ack payload = do p ← Hello.decode payload; ok (hello_ack p)
decode_payload Framing.member_up payload = do p ← Hello.decode payload; ok (member_up p)
decode_payload Framing.member_down payload = do p ← MemberDown.decode payload; ok (member_down p)
decode_payload Framing.member_snapshot payload = do
  p ← MemberSnapshot.decode payload
  ok (member_snapshot p)
decode_payload Framing.mr_publish payload = do p ← MrPublish.decode payload; ok (mr_publish p)
decode_payload Framing.mr_revoke payload = do p ← MrRevoke.decode payload; ok (mr_revoke p)
decode_payload Framing.heartbeat payload = do p ← Heartbeat.decode payload; ok (heartbeat p)
decode_payload Framing.heartbeat_ack payload = do p ← Heartbeat.decode payload; ok (heartbeat_ack p)
decode_payload Framing.join payload = do p ← Join.decode payload; ok (join p)
decode_payload Framing.device_profile_publish payload = do
  p ← DeviceProfilePublish.decode payload
  ok (device_profile_publish p)
decode_payload Framing.alloc_req payload = do p ← AllocReq.decode payload; ok (alloc_req p)
decode_payload Framing.alloc_resp payload = do p ← AllocResp.decode payload; ok (alloc_resp p)
decode_payload Framing.region_create payload = do
  p ← RegionCreate.decode payload
  ok (region_create p)
decode_payload Framing.region_create_ok payload = do
  p ← RegionCreateOk.decode payload
  ok (region_create_ok p)
decode_payload Framing.region_delete payload = do
  p ← RegionDelete.decode payload
  ok (region_delete p)
decode_payload Framing.fetch payload = do p ← Fetch.decode payload; ok (fetch p)
decode_payload Framing.fetch_resp payload = do p ← FetchResp.decode payload; ok (fetch_resp p)
decode_payload Framing.write_lock_req payload = do
  p ← WriteLockReq.decode payload
  ok (write_lock_req p)
decode_payload Framing.write_lock_granted payload = do
  p ← WriteLockGranted.decode payload
  ok (write_lock_granted p)
decode_payload Framing.write_unlock payload = do p ← WriteUnlock.decode payload; ok (write_unlock p)
decode_payload Framing.invalidate payload = do p ← Invalidate.decode payload; ok (invalidate p)
decode_payload Framing.invalidate_ack payload = do
  p ← InvalidateAck.decode payload
  ok (invalidate_ack p)

unfoldable pub decode : List ℕ → Result ControlMsg
decode buf = do (t, payload) ← decode_ctrl_message buf; decode_payload t payload
