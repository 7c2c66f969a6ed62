-- ===== src/Control/ControlMsg/RoundTrip.antt =====
-- The control messages of crates/ub-control/src/message.rs there and back.
use unibus_toy.Base.{
  ℕ, ◌+◌, ◌≡◌, refl, false, List, ◌++◌, ltb, arith, length, length-append, take-append, [], drop,
  take,
}
use mathlib.Core.List.{append_assoc, append-nil}
use unibus_toy.Core.Error.{ok}
use unibus_toy.Core.Bytes.{be_bytes, length-be_bytes, Fits}
use unibus_toy.Control.Cursor.{reads}
use unibus_toy.Control.Framing
use unibus_toy.Control.Framing.{CtrlMsgType, encode_ctrl_message, decode_ctrl_message, slice}
use unibus_toy.Control.ControlMsg.{
  ControlMsg, msg_type, encode_payload, encode, decode_payload, decode,
}
use unibus_toy.Control.Message.AllocReq
use unibus_toy.Control.Message.AllocResp
use unibus_toy.Control.Message.DeviceProfilePublish
use unibus_toy.Control.Message.Fetch
use unibus_toy.Control.Message.FetchResp
use unibus_toy.Control.Message.Heartbeat
use unibus_toy.Control.Message.Hello
use unibus_toy.Control.Message.Invalidate
use unibus_toy.Control.Message.InvalidateAck
use unibus_toy.Control.Message.Join
use unibus_toy.Control.Message.MemberDown
use unibus_toy.Control.Message.MemberSnapshot
use unibus_toy.Control.Message.MrPublish
use unibus_toy.Control.Message.MrRevoke
use unibus_toy.Control.Message.RegionCreate
use unibus_toy.Control.Message.RegionCreateOk
use unibus_toy.Control.Message.RegionDelete
use unibus_toy.Control.Message.WriteLockGranted
use unibus_toy.Control.Message.WriteLockReq
use unibus_toy.Control.Message.WriteUnlock
use unibus_toy.Control.Message.AllocReq.{IsAllocReq}
use unibus_toy.Control.Message.AllocResp.{IsAllocResp}
use unibus_toy.Control.Message.DeviceProfilePublish.{IsDeviceProfilePublish}
use unibus_toy.Control.Message.Fetch.{IsFetch}
use unibus_toy.Control.Message.FetchResp.{IsFetchResp}
use unibus_toy.Control.Message.Heartbeat.{IsHeartbeat}
use unibus_toy.Control.Message.Hello.{IsHello}
use unibus_toy.Control.Message.Invalidate.{IsInvalidate}
use unibus_toy.Control.Message.InvalidateAck.{IsInvalidateAck}
use unibus_toy.Control.Message.Join.{IsJoin}
use unibus_toy.Control.Message.MemberDown.{IsMemberDown}
use unibus_toy.Control.Message.MemberSnapshot.{IsMemberSnapshot}
use unibus_toy.Control.Message.MrPublish.{IsMrPublish}
use unibus_toy.Control.Message.MrRevoke.{IsMrRevoke}
use unibus_toy.Control.Message.RegionCreate.{IsRegionCreate}
use unibus_toy.Control.Message.RegionCreateOk.{IsRegionCreateOk}
use unibus_toy.Control.Message.RegionDelete.{IsRegionDelete}
use unibus_toy.Control.Message.WriteLockGranted.{IsWriteLockGranted}
use unibus_toy.Control.Message.WriteLockReq.{IsWriteLockReq}
use unibus_toy.Control.Message.WriteUnlock.{IsWriteUnlock}

-- The messages whose payloads are values of their types.
abbrev pub IsPayload : ControlMsg → Type 0
IsPayload (ControlMsg.hello p) = IsHello p
IsPayload (ControlMsg.hello_ack p) = IsHello p
IsPayload (ControlMsg.member_up p) = IsHello p
IsPayload (ControlMsg.member_down p) = IsMemberDown p
IsPayload (ControlMsg.member_snapshot p) = IsMemberSnapshot p
IsPayload (ControlMsg.mr_publish p) = IsMrPublish p
IsPayload (ControlMsg.mr_revoke p) = IsMrRevoke p
IsPayload (ControlMsg.heartbeat p) = IsHeartbeat p
IsPayload (ControlMsg.heartbeat_ack p) = IsHeartbeat p
IsPayload (ControlMsg.join p) = IsJoin p
IsPayload (ControlMsg.device_profile_publish p) = IsDeviceProfilePublish p
IsPayload (ControlMsg.alloc_req p) = IsAllocReq p
IsPayload (ControlMsg.alloc_resp p) = IsAllocResp p
IsPayload (ControlMsg.region_create p) = IsRegionCreate p
IsPayload (ControlMsg.region_create_ok p) = IsRegionCreateOk p
IsPayload (ControlMsg.region_delete p) = IsRegionDelete p
IsPayload (ControlMsg.fetch p) = IsFetch p
IsPayload (ControlMsg.fetch_resp p) = IsFetchResp p
IsPayload (ControlMsg.write_lock_req p) = IsWriteLockReq p
IsPayload (ControlMsg.write_lock_granted p) = IsWriteLockGranted p
IsPayload (ControlMsg.write_unlock p) = IsWriteUnlock p
IsPayload (ControlMsg.invalidate p) = IsInvalidate p
IsPayload (ControlMsg.invalidate_ack p) = IsInvalidateAck p

decode_payload-encode_payload :
    (m : ControlMsg) → IsPayload m → decode_payload (msg_type m) (encode_payload m) ≡ ok m
unfolding decode_payload msg_type encode_payload
decode_payload-encode_payload (ControlMsg.hello p) v =
    let whole = Hello.decode-encode p [] v in rw (rw append-nil at whole)
decode_payload-encode_payload (ControlMsg.hello_ack p) v =
    let whole = Hello.decode-encode p [] v in rw (rw append-nil at whole)
decode_payload-encode_payload (ControlMsg.member_up p) v =
    let whole = Hello.decode-encode p [] v in rw (rw append-nil at whole)
decode_payload-encode_payload (ControlMsg.member_down p) v =
    let whole = MemberDown.decode-encode p [] v in rw (rw append-nil at whole)
decode_payload-encode_payload (ControlMsg.member_snapshot p) v =
    let whole = MemberSnapshot.decode-encode p [] v in rw (rw append-nil at whole)
decode_payload-encode_payload (ControlMsg.mr_publish p) v =
    let whole = MrPublish.decode-encode p [] v in rw (rw append-nil at whole)
decode_payload-encode_payload (ControlMsg.mr_revoke p) v =
    let whole = MrRevoke.decode-encode p [] v in rw (rw append-nil at whole)
decode_payload-encode_payload (ControlMsg.heartbeat p) v =
    let whole = Heartbeat.decode-encode p [] v in rw (rw append-nil at whole)
decode_payload-encode_payload (ControlMsg.heartbeat_ack p) v =
    let whole = Heartbeat.decode-encode p [] v in rw (rw append-nil at whole)
decode_payload-encode_payload (ControlMsg.join p) v =
    let whole = Join.decode-encode p [] v in rw (rw append-nil at whole)
decode_payload-encode_payload (ControlMsg.device_profile_publish p) v =
    let whole = DeviceProfilePublish.decode-encode p [] v in rw (rw append-nil at whole)
decode_payload-encode_payload (ControlMsg.alloc_req p) v =
    let whole = AllocReq.decode-encode p [] v in rw (rw append-nil at whole)
decode_payload-encode_payload (ControlMsg.alloc_resp p) v =
    let whole = AllocResp.decode-encode p [] v in rw (rw append-nil at whole)
decode_payload-encode_payload (ControlMsg.region_create p) v =
    let whole = RegionCreate.decode-encode p [] v in rw (rw append-nil at whole)
decode_payload-encode_payload (ControlMsg.region_create_ok p) v =
    let whole = RegionCreateOk.decode-encode p [] v in rw (rw append-nil at whole)
decode_payload-encode_payload (ControlMsg.region_delete p) v =
    let whole = RegionDelete.decode-encode p [] v in rw (rw append-nil at whole)
decode_payload-encode_payload (ControlMsg.fetch p) v =
    let whole = Fetch.decode-encode p [] v in rw (rw append-nil at whole)
decode_payload-encode_payload (ControlMsg.fetch_resp p) v =
    let whole = FetchResp.decode-encode p [] v in rw (rw append-nil at whole)
decode_payload-encode_payload (ControlMsg.write_lock_req p) v =
    let whole = WriteLockReq.decode-encode p [] v in rw (rw append-nil at whole)
decode_payload-encode_payload (ControlMsg.write_lock_granted p) v =
    let whole = WriteLockGranted.decode-encode p [] v in rw (rw append-nil at whole)
decode_payload-encode_payload (ControlMsg.write_unlock p) v =
    let whole = WriteUnlock.decode-encode p [] v in rw (rw append-nil at whole)
decode_payload-encode_payload (ControlMsg.invalidate p) v =
    let whole = Invalidate.decode-encode p [] v in rw (rw append-nil at whole)
decode_payload-encode_payload (ControlMsg.invalidate_ack p) v =
    let whole = InvalidateAck.decode-encode p [] v in rw (rw append-nil at whole)

-- The five bytes of the framing.
drop-framing :
    (n t : ℕ) (payload : List ℕ) → drop 5 (be_bytes 4 n ++ (be_bytes 1 t ++ payload)) ≡ payload
unfolding be_bytes
drop-framing n t payload = refl

decode_ctrl-encode_ctrl :
    (t : CtrlMsgType) (payload rest : List ℕ)
    → Fits 4 (length payload)
    → decode_ctrl_message (encode_ctrl_message t payload ++ rest) ≡ ok (t, payload)
unfolding decode_ctrl_message encode_ctrl_message slice
decode_ctrl-encode_ctrl t payload rest h =
    let body = be_bytes 4 (length payload) ++ (be_bytes 1 (Framing.to_u8 t) ++ (payload ++ rest)) in
    let size : length body ≡ 4 + (1 + (length payload + length rest)) =
      simp (length-append, length-be_bytes) in
    let long : ltb (length body) (5 + length payload) ≡ false = ground (arith, size) in
    let header : ltb (length body) 5 ≡ false = ground (arith, size) in
    let back : take (length payload) (drop 5 body) ≡ payload =
      rw (drop-framing, take-append payload rest) in
    simp (
      append_assoc,
      header,
      reads h,
      reads (Framing.to_u8-Fits t),
      Framing.from_u8-to_u8,
      long,
      back,
    )

-- For a control message of any of the 23 types whose fields are values of their types, whose
-- texts are UTF-8 and whose payload is below 4 GiB, decoding its bytes gives it back, whatever
-- follows them.
pub decode_msg-encode_msg :
    (m : ControlMsg) (rest : List ℕ)
    → IsPayload m
    → Fits 4 (length (encode_payload m))
    → decode (encode m ++ rest) ≡ ok m
unfolding decode encode
decode_msg-encode_msg m rest v short =
    rw (decode_ctrl-encode_ctrl (msg_type m) (encode_payload m) rest short)
      (decode_payload-encode_payload m v)
