-- ===== src/Control/Framing.antt =====
-- crates/ub-control/src/message.rs: the types of the control messages and their framing,
-- [length:4 | type:1 | payload].
use unibus_toy.Base.{
  ℕ, ◌+◌, ◌≡◌, refl, Option, none, some, List, ◌++◌, ltb, ◌==◌, if◌then◌else◌, length, take, drop,
}
use unibus_toy.Core.Error.{
  Result, ok, panicked, internal, guard, ctrl_too_short, unknown_ctrl_type, ctrl_truncated, ◌>>=◌,
  ◌>>◌,
}
use unibus_toy.Base.{not, arith}
use unibus_toy.Core.Bytes.{be_bytes, Fits}
use unibus_toy.Wire.Codec.{read_be, ok_or}

pub data CtrlMsgType : Type 0 where
  hello hello_ack member_up member_down member_snapshot mr_publish mr_revoke : CtrlMsgType
  heartbeat heartbeat_ack join device_profile_publish alloc_req alloc_resp : CtrlMsgType
  region_create region_create_ok region_delete fetch fetch_resp write_lock_req : CtrlMsgType
  write_lock_granted write_unlock invalidate invalidate_ack : CtrlMsgType

-- `msg_type as u8`
unfoldable pub to_u8 : CtrlMsgType → ℕ
to_u8 hello = 0x01
to_u8 hello_ack = 0x02
to_u8 member_up = 0x03
to_u8 member_down = 0x04
to_u8 member_snapshot = 0x05
to_u8 mr_publish = 0x06
to_u8 mr_revoke = 0x07
to_u8 heartbeat = 0x08
to_u8 heartbeat_ack = 0x09
to_u8 join = 0x10
to_u8 device_profile_publish = 0x11
to_u8 alloc_req = 0x12
to_u8 alloc_resp = 0x13
to_u8 region_create = 0x14
to_u8 region_create_ok = 0x15
to_u8 region_delete = 0x16
to_u8 fetch = 0x17
to_u8 fetch_resp = 0x18
to_u8 write_lock_req = 0x19
to_u8 write_lock_granted = 0x1A
to_u8 write_unlock = 0x1B
to_u8 invalidate = 0x1C
to_u8 invalidate_ack = 0x1D

unfoldable pub from_u8 : ℕ → Option CtrlMsgType
from_u8 v =
    if v == 0x01
    then some hello
    else if v == 0x02
    then some hello_ack
    else if v == 0x03
    then some member_up
    else if v == 0x04
    then some member_down
    else if v == 0x05
    then some member_snapshot
    else if v == 0x06
    then some mr_publish
    else if v == 0x07
    then some mr_revoke
    else if v == 0x08
    then some heartbeat
    else if v == 0x09
    then some heartbeat_ack
    else if v == 0x10
    then some join
    else if v == 0x11
    then some device_profile_publish
    else if v == 0x12
    then some alloc_req
    else if v == 0x13
    then some alloc_resp
    else if v == 0x14
    then some region_create
    else if v == 0x15
    then some region_create_ok
    else if v == 0x16
    then some region_delete
    else if v == 0x17
    then some fetch
    else if v == 0x18
    then some fetch_resp
    else if v == 0x19
    then some write_lock_req
    else if v == 0x1A
    then some write_lock_granted
    else if v == 0x1B
    then some write_unlock
    else if v == 0x1C
    then some invalidate
    else if v == 0x1D
    then some invalidate_ack
    else none

pub from_u8-to_u8 : (t : CtrlMsgType) → from_u8 (to_u8 t) ≡ some t
unfolding from_u8 to_u8
from_u8-to_u8 hello = refl
from_u8-to_u8 _ = refl

pub to_u8-Fits : (t : CtrlMsgType) → Fits 1 (to_u8 t)
unfolding to_u8
to_u8-Fits hello = record { below = omega arith }
to_u8-Fits _ = record { below = omega arith }

-- `buf[from..from + len].to_vec()`
unfoldable pub slice : ℕ → ℕ → List ℕ → Result (List ℕ)
slice from len buf =
    if ltb (length buf) (from + len) then panicked else ok (take len (drop from buf))

unfoldable pub encode_ctrl_message : CtrlMsgType → List ℕ → List ℕ
encode_ctrl_message t payload = be_bytes 4 (length payload) ++ (be_bytes 1 (to_u8 t) ++ payload)

unfoldable pub decode_ctrl_message : List ℕ → Result (CtrlMsgType × List ℕ)
decode_ctrl_message buf = do
  guard (not (ltb (length buf) 5)) (internal ctrl_too_short)
  (len, cur) ← read_be 4 buf
  (msg_type_u8, _) ← read_be 1 cur
  msg_type ← ok_or (from_u8 msg_type_u8) (internal (unknown_ctrl_type msg_type_u8))
  guard (not (ltb (length buf) (5 + len))) (internal ctrl_truncated)
  payload ← slice 5 len buf
  ok (msg_type, payload)
