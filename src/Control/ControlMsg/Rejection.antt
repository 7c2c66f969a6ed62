-- ===== src/Control/ControlMsg/Rejection.antt =====
-- The decoder of crates/ub-control/src/message.rs on bytes that nobody encoded: whole messages.
use unibus_toy.Base.{
  ℕ, ◌+◌, ◌≤◌, ◌≡◌, refl, inl, inr, false, some, List, arith, ltb, length, length-drop, sym, take,
  drop, Bool-cases, Option-cases,
}
use unibus_toy.Core.Error.{Result, ok, err, panicked, ◌>>=◌}
use unibus_toy.Core.Bytes.{from_be}
use unibus_toy.Wire.Codec.{read_be}
use unibus_toy.Wire.Codec.Rejection.{Returns, bind}
use unibus_toy.Control.Framing.{CtrlMsgType, from_u8, slice, decode_ctrl_message}
use unibus_toy.Control.Framing
use unibus_toy.Control.ControlMsg.{ControlMsg, msg_type, decode_payload, decode}
use unibus_toy.Control.ControlMsg.Total.{
  Total, Hello-Total, MemberDown-Total, MemberSnapshot-Total, MrPublish-Total, MrRevoke-Total,
  Heartbeat-Total, Join-Total, DeviceProfilePublish-Total, AllocReq-Total, AllocResp-Total,
  RegionCreate-Total, RegionCreateOk-Total, RegionDelete-Total, Fetch-Total, FetchResp-Total,
  WriteLockReq-Total, WriteLockGranted-Total, WriteUnlock-Total, Invalidate-Total,
  InvalidateAck-Total,
}

-- A payload that was decoded makes the message.
made {ℓ κ} :
    {A : Type ℓ} {B : Type κ} (Q : B → Type 0) (m : Result A) (c : A → B)
    → Total m
    → ((a : A) → Q (c a))
    → Returns Q (m >>= λ a. ok (c a))
made Q (ok a) c h k = k a
made Q (err e) c h k = tt
made Q panicked c h k = elim h [ ]

decode_payload-Returns :
    (t : CtrlMsgType) (payload : List ℕ) → Returns (λ m. msg_type m ≡ t) (decode_payload t payload)
unfolding decode_payload msg_type
decode_payload-Returns Framing.hello payload =
    made (λ m. msg_type m ≡ Framing.hello) _ ControlMsg.hello (Hello-Total payload) λ p. refl
decode_payload-Returns Framing.hello_ack payload =
    made (λ m. msg_type m ≡ Framing.hello_ack) _ ControlMsg.hello_ack (Hello-Total payload)
      λ p. refl
decode_payload-Returns Framing.member_up payload =
    made (λ m. msg_type m ≡ Framing.member_up) _ ControlMsg.member_up (Hello-Total payload)
      λ p. refl
decode_payload-Returns Framing.member_down payload =
    made (λ m. msg_type m ≡ Framing.member_down) _ ControlMsg.member_down (MemberDown-Total payload)
      λ p. refl
decode_payload-Returns Framing.member_snapshot payload =
    made (λ m. msg_type m ≡ Framing.member_snapshot) _ ControlMsg.member_snapshot
      (MemberSnapshot-Total payload) λ p. refl
decode_payload-Returns Framing.mr_publish payload =
    made (λ m. msg_type m ≡ Framing.mr_publish) _ ControlMsg.mr_publish (MrPublish-Total payload)
      λ p. refl
decode_payload-Returns Framing.mr_revoke payload =
    made (λ m. msg_type m ≡ Framing.mr_revoke) _ ControlMsg.mr_revoke (MrRevoke-Total payload)
      λ p. refl
decode_payload-Returns Framing.heartbeat payload =
    made (λ m. msg_type m ≡ Framing.heartbeat) _ ControlMsg.heartbeat (Heartbeat-Total payload)
      λ p. refl
decode_payload-Returns Framing.heartbeat_ack payload =
    made (λ m. msg_type m ≡ Framing.heartbeat_ack) _ ControlMsg.heartbeat_ack
      (Heartbeat-Total payload) λ p. refl
decode_payload-Returns Framing.join payload =
    made (λ m. msg_type m ≡ Framing.join) _ ControlMsg.join (Join-Total payload) λ p. refl
decode_payload-Returns Framing.device_profile_publish payload =
    made (λ m. msg_type m ≡ Framing.device_profile_publish) _ ControlMsg.device_profile_publish
      (DeviceProfilePublish-Total payload) λ p. refl
decode_payload-Returns Framing.alloc_req payload =
    made (λ m. msg_type m ≡ Framing.alloc_req) _ ControlMsg.alloc_req (AllocReq-Total payload)
      λ p. refl
decode_payload-Returns Framing.alloc_resp payload =
    made (λ m. msg_type m ≡ Framing.alloc_resp) _ ControlMsg.alloc_resp (AllocResp-Total payload)
      λ p. refl
decode_payload-Returns Framing.region_create payload =
    made (λ m. msg_type m ≡ Framing.region_create) _ ControlMsg.region_create
      (RegionCreate-Total payload) λ p. refl
decode_payload-Returns Framing.region_create_ok payload =
    made (λ m. msg_type m ≡ Framing.region_create_ok) _ ControlMsg.region_create_ok
      (RegionCreateOk-Total payload) λ p. refl
decode_payload-Returns Framing.region_delete payload =
    made (λ m. msg_type m ≡ Framing.region_delete) _ ControlMsg.region_delete
      (RegionDelete-Total payload) λ p. refl
decode_payload-Returns Framing.fetch payload =
    made (λ m. msg_type m ≡ Framing.fetch) _ ControlMsg.fetch (Fetch-Total payload) λ p. refl
decode_payload-Returns Framing.fetch_resp payload =
    made (λ m. msg_type m ≡ Framing.fetch_resp) _ ControlMsg.fetch_resp (FetchResp-Total payload)
      λ p. refl
decode_payload-Returns Framing.write_lock_req payload =
    made (λ m. msg_type m ≡ Framing.write_lock_req) _ ControlMsg.write_lock_req
      (WriteLockReq-Total payload) λ p. refl
decode_payload-Returns Framing.write_lock_granted payload =
    made (λ m. msg_type m ≡ Framing.write_lock_granted) _ ControlMsg.write_lock_granted
      (WriteLockGranted-Total payload) λ p. refl
decode_payload-Returns Framing.write_unlock payload =
    made (λ m. msg_type m ≡ Framing.write_unlock) _ ControlMsg.write_unlock
      (WriteUnlock-Total payload) λ p. refl
decode_payload-Returns Framing.invalidate payload =
    made (λ m. msg_type m ≡ Framing.invalidate) _ ControlMsg.invalidate (Invalidate-Total payload)
      λ p. refl
decode_payload-Returns Framing.invalidate_ack payload =
    made (λ m. msg_type m ≡ Framing.invalidate_ack) _ ControlMsg.invalidate_ack
      (InvalidateAck-Total payload) λ p. refl

-- The length that the framing announces, and the byte behind it.
abbrev pub announced : List ℕ → ℕ
announced buf = from_be 0 (take 4 buf)

abbrev pub type_byte : List ℕ → ℕ
type_byte buf = from_be 0 (take 1 (drop 4 buf))

-- The buffer holds the payload that it announces, and its type byte names a type.
pub record IsFramed (buf : List ℕ) (r : CtrlMsgType × List ℕ) : Type 0 where
  pub named : from_u8 (type_byte buf) ≡ some r.0
  pub held : 5 + announced buf ≤ length buf
  pub payload : r.1 ≡ take (announced buf) (drop 5 buf)

slice_within :
    (from len : ℕ) (buf : List ℕ)
    → from + len ≤ length buf
    → slice from len buf ≡ ok (take len (drop from buf))
unfolding slice
slice_within from len buf h = let e : ltb (length buf) (from + len) ≡ false = ground arith in rw e

decode_ctrl_message-Returns : (buf : List ℕ) → Returns (IsFramed buf) (decode_ctrl_message buf)
unfolding decode_ctrl_message read_be
decode_ctrl_message-Returns buf = elim (Bool-cases (ltb (length buf) 5)) [
  | inl short ↦ rw short tt
  | inr long ↦
      let four : ltb (length buf) 4 ≡ false = ground arith in
      let one : ltb (length (drop 4 buf)) 1 ≡ false = ground (arith, length-drop 4 buf) in
      elim (Option-cases (from_u8 (type_byte buf))) [
        | inl unknown ↦ rw (long, four, one, unknown) tt
        | inr (t, named) ↦ elim (Bool-cases (ltb (length buf) (5 + announced buf))) [
          | inl truncated ↦ rw (long, four, one, named, truncated) tt
          | inr whole ↦
              let held : 5 + announced buf ≤ length buf = ground arith in
              rw (long, four, one, named, whole, slice_within 5 (announced buf) buf held)
                (record { named = named; held = held; payload = refl })
        ]
      ]
]

-- What is known of a message that was decoded.
pub record IsDecoded (buf : List ℕ) (m : ControlMsg) : Type 0 where
  pub named : from_u8 (type_byte buf) ≡ some (msg_type m)
  pub held : 5 + announced buf ≤ length buf
  pub payload : decode_payload (msg_type m) (take (announced buf) (drop 5 buf)) ≡ ok m

-- The value with the equation that it comes from.
remember {ℓ} :
    {A : Type ℓ} (P Q : A → Type 0) (m : Result A)
    → Returns P m
    → ((a : A) → m ≡ ok a → P a → Q a)
    → Returns Q m
remember P Q (ok a) h k = k a refl h
remember P Q (err e) h k = tt
remember P Q panicked h k = elim h [ ]

-- On any bytes at all the decoder of control messages returns an error or a message, and takes
-- no slice out of bounds. A message is returned only where its type byte names its type, the
-- buffer holds the payload that the length announces, and that payload decodes to it.
pub decode_msg_accepts : (buf : List ℕ) → Returns (IsDecoded buf) (decode buf)
unfolding decode
decode_msg_accepts buf =
    bind (IsFramed buf) (IsDecoded buf) _ _ (decode_ctrl_message-Returns buf) λ r framed.
      remember (λ m. msg_type m ≡ r.0) (IsDecoded buf) _ (decode_payload-Returns r.0 r.1)
        λ m e t. record {
          named = rw t framed.named;
          held = framed.held;
          payload = rw (t, sym framed.payload) e;
        }
