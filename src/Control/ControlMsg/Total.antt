-- ===== src/Control/ControlMsg/Total.antt =====
-- The decoders of crates/ub-control/src/message.rs on bytes that nobody encoded: the payloads.
use unibus_toy.Base.{ℕ, zero, suc, Option, none, some, List, arith}
use unibus_toy.Core.Error.{UbError, Result, ok, err, panicked, ◌>>=◌}
use unibus_toy.Wire.Codec.{read_be, read_exact, ok_or}
use unibus_toy.Control.Cursor.{read_text, read_bytes}
use unibus_toy.Control.Message.AllocReq
use unibus_toy.Control.Message.AllocResp
use unibus_toy.Control.Message.DeviceProfileEntry
use unibus_toy.Control.Message.DeviceProfilePublish
use unibus_toy.Control.Message.Fetch
use unibus_toy.Control.Message.FetchResp
use unibus_toy.Control.Message.Heartbeat
use unibus_toy.Control.Message.Hello
use unibus_toy.Control.Message.Invalidate
use unibus_toy.Control.Message.InvalidateAck
use unibus_toy.Control.Message.Join
use unibus_toy.Control.Message.MemberDown
use unibus_toy.Control.Message.MemberSnapshot
use unibus_toy.Control.Message.MrPublish
use unibus_toy.Control.Message.MrRevoke
use unibus_toy.Control.Message.RegionCreate
use unibus_toy.Control.Message.RegionCreateOk
use unibus_toy.Control.Message.RegionDelete
use unibus_toy.Control.Message.WriteLockGranted
use unibus_toy.Control.Message.WriteLockReq
use unibus_toy.Control.Message.WriteUnlock

-- The call returns a value or an error.
abbrev pub Total {ℓ} : {A : Type ℓ} → Result A → Type 0
Total (ok a) = Unit
Total (err e) = Unit
Total panicked = ⊥

bind {ℓ κ} :
    {A : Type ℓ} {B : Type κ} (m : Result A) (f : A → Result B)
    → Total m
    → ((a : A) → Total (f a))
    → Total (m >>= f)
bind (ok a) f h k = k a
bind (err e) f h k = tt
bind panicked f h k = elim h [ ]

read_be-Total : (n : ℕ) (cur : List ℕ) → Total (read_be n cur)
unfolding read_be
read_be-Total n cur = ground arith

read_exact-Total : (n : ℕ) (cur : List ℕ) → Total (read_exact n cur)
unfolding read_exact
read_exact-Total n cur = ground arith

ok_or-Total {ℓ} : {A : Type ℓ} (o : Option A) (e : UbError) → Total (ok_or o e)
ok_or-Total none e = tt
ok_or-Total (some a) e = tt

read_bytes-Total : (cur : List ℕ) → Total (read_bytes cur)
unfolding read_bytes
read_bytes-Total cur = search (bind, read_be-Total, read_exact-Total)

read_text-Total : (cur : List ℕ) → Total (read_text cur)
unfolding read_text
read_text-Total cur = bind _ _ (read_bytes-Total cur) λ p. ground arith

ruleset reads =
    (bind, read_be-Total, read_exact-Total, ok_or-Total, read_bytes-Total, read_text-Total)

pub Hello-Total : (cur : List ℕ) → Total (Hello.decode cur)
unfolding Hello.decode
Hello-Total cur = search reads depth 30 fits 4000

pub MemberDown-Total : (cur : List ℕ) → Total (MemberDown.decode cur)
unfolding MemberDown.decode
MemberDown-Total cur = search reads depth 30 fits 4000

pub MrPublish-Total : (cur : List ℕ) → Total (MrPublish.decode cur)
unfolding MrPublish.decode
MrPublish-Total cur = search reads depth 30 fits 4000

pub MrRevoke-Total : (cur : List ℕ) → Total (MrRevoke.decode cur)
unfolding MrRevoke.decode
MrRevoke-Total cur = search reads depth 30 fits 4000

pub Heartbeat-Total : (cur : List ℕ) → Total (Heartbeat.decode cur)
unfolding Heartbeat.decode
Heartbeat-Total cur = search reads depth 30 fits 4000

pub Join-Total : (cur : List ℕ) → Total (Join.decode cur)
unfolding Join.decode
Join-Total cur = search reads depth 30 fits 4000

pub AllocReq-Total : (cur : List ℕ) → Total (AllocReq.decode cur)
unfolding AllocReq.decode
AllocReq-Total cur = search reads depth 30 fits 4000

pub AllocResp-Total : (cur : List ℕ) → Total (AllocResp.decode cur)
unfolding AllocResp.decode
AllocResp-Total cur = search reads depth 30 fits 4000

pub RegionCreate-Total : (cur : List ℕ) → Total (RegionCreate.decode cur)
unfolding RegionCreate.decode
RegionCreate-Total cur = search reads depth 30 fits 4000

pub RegionCreateOk-Total : (cur : List ℕ) → Total (RegionCreateOk.decode cur)
unfolding RegionCreateOk.decode
RegionCreateOk-Total cur = search reads depth 30 fits 4000

pub RegionDelete-Total : (cur : List ℕ) → Total (RegionDelete.decode cur)
unfolding RegionDelete.decode
RegionDelete-Total cur = search reads depth 30 fits 4000

pub Fetch-Total : (cur : List ℕ) → Total (Fetch.decode cur)
unfolding Fetch.decode
Fetch-Total cur = search reads depth 30 fits 4000

pub FetchResp-Total : (cur : List ℕ) → Total (FetchResp.decode cur)
unfolding FetchResp.decode
FetchResp-Total cur = search reads depth 30 fits 4000

pub WriteLockReq-Total : (cur : List ℕ) → Total (WriteLockReq.decode cur)
unfolding WriteLockReq.decode
WriteLockReq-Total cur = search reads depth 30 fits 4000

pub WriteLockGranted-Total : (cur : List ℕ) → Total (WriteLockGranted.decode cur)
unfolding WriteLockGranted.decode
WriteLockGranted-Total cur = search reads depth 30 fits 4000

pub WriteUnlock-Total : (cur : List ℕ) → Total (WriteUnlock.decode cur)
unfolding WriteUnlock.decode
WriteUnlock-Total cur = search reads depth 30 fits 4000

pub Invalidate-Total : (cur : List ℕ) → Total (Invalidate.decode cur)
unfolding Invalidate.decode
Invalidate-Total cur = search reads depth 30 fits 4000

pub InvalidateAck-Total : (cur : List ℕ) → Total (InvalidateAck.decode cur)
unfolding InvalidateAck.decode
InvalidateAck-Total cur = search reads depth 30 fits 4000

decode_node-Total : (cur : List ℕ) → Total (MemberSnapshot.decode_node cur)
unfolding MemberSnapshot.decode_node
decode_node-Total cur = search reads depth 30 fits 4000

decode_nodes-Total : (count : ℕ) (cur : List ℕ) → Total (MemberSnapshot.decode_nodes count cur)
unfolding MemberSnapshot.decode_nodes
decode_nodes-Total zero cur = tt
decode_nodes-Total (suc count) cur =
    bind _ _ (decode_node-Total cur) λ p. bind _ _ (decode_nodes-Total count p.1) λ ns. tt

pub MemberSnapshot-Total : (cur : List ℕ) → Total (MemberSnapshot.decode cur)
unfolding MemberSnapshot.decode
MemberSnapshot-Total cur = search (reads, decode_nodes-Total)

DeviceProfileEntry-Total : (cur : List ℕ) → Total (DeviceProfileEntry.decode cur)
unfolding DeviceProfileEntry.decode
DeviceProfileEntry-Total cur = search reads depth 40 fits 4000

decode_entries-Total :
    (count : ℕ) (cur : List ℕ) → Total (DeviceProfilePublish.decode_entries count cur)
unfolding DeviceProfilePublish.decode_entries
decode_entries-Total zero cur = tt
decode_entries-Total (suc count) cur = bind _ _ (read_bytes-Total cur) λ p.
    bind _ _ (DeviceProfileEntry-Total p.0) λ e. bind _ _ (decode_entries-Total count p.1) λ es. tt

pub DeviceProfilePublish-Total : (cur : List ℕ) → Total (DeviceProfilePublish.decode cur)
unfolding DeviceProfilePublish.decode
DeviceProfilePublish-Total cur = search (reads, decode_entries-Total)
