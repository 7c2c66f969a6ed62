-- ===== src/Dataplane/Remote.antt =====
-- The requests that crates/ub-dataplane/src/lib.rs serves for other nodes against the local verbs
-- of crates/ub-core/src/verbs.rs.
use unibus_toy.Base.{
  ℕ, ◌+◌, ◌-◌, ◌%◌, ◌^◌, ◌≡◌, refl, sym, inl, inr, true, some, List, [], ◌∷◌, arith, leb,
  Bool-cases,
}
use unibus_toy.Core.Addr
use unibus_toy.Core.Error.{Result, ok, err, panicked, Result-cases, status_code, ◌>>=◌}
use unibus_toy.Core.Device
use unibus_toy.Core.Device.Backing
use unibus_toy.Transport.Manager.State.{TransportManager}
use unibus_toy.Core.Mr.{
  MrEntry, MrTable, is_active, try_inflight_inc, lookup, covers, find_covering, lookup_by_addr,
  check_perms,
}
use unibus_toy.Core.Verb
use unibus_toy.Core.Verbs.{Devices, update, ub_write_sync}
use unibus_toy.Wire.Frame.{DataExtHeader}
use unibus_toy.Dataplane.State.{
  DataPlaneEngine, Moment, hold, offset_in_mr, device_offset, with_table, let_go, dies,
}
use unibus_toy.Dataplane.Handlers.{
  handle_write, write_held, store_device, respond, send_error_response,
}

found_offset :
    (a o : ℕ) (e : MrEntry) (es : List (ℕ × MrEntry))
    → find_covering a es ≡ some (e, o)
    → (leb (Addr.offset e.base_ub_addr) (Addr.offset a) ≡ true)
      × (Addr.offset a - Addr.offset e.base_ub_addr ≡ o)
unfolding find_covering covers
found_offset a o e [] found = cc found
found_offset a o e ((h, f) ∷ es) found = elim (Bool-cases (covers a f.base_ub_addr f.len)) [
  | inl here ↦
      let reaches : leb (Addr.offset f.base_ub_addr) (Addr.offset a) ≡ true = ground arith in
      let both : some (f, Addr.offset a - Addr.offset f.base_ub_addr) ≡ some (e, o) =
        rw here at found in
      let same : e ≡ f = cc both in rw same (reaches, cc both)
  | inr further ↦ found_offset a o e es (rw further at found)
]

-- A frame names the region that the table finds for its address, which is in service.
pub record Names (t : MrTable) (ext : DataExtHeader) (e : MrEntry) (o : ℕ) : Type 0 where
  pub registered : lookup ext.mr_handle t ≡ some e
  pub covering : lookup_by_addr ext.ub_addr t ≡ some (e, o)
  pub active : is_active e.state ≡ true

offset_eq :
    (t : MrTable) (ext : DataExtHeader) (e : MrEntry) (o : ℕ)
    → Names t ext e o
    → device_offset ext e ≡ (e.base_offset + o) % 2 ^ 64
unfolding device_offset offset_in_mr lookup_by_addr
offset_eq t ext e o v =
    let at = found_offset ext.ub_addr o e t.entries v.covering in rw (at.0, at.1) refl

-- The devices after a local write, which an error leaves as they were.
abbrev pub devices_after : Devices → Result Devices → Devices
devices_after devices (ok devices') = devices'
devices_after devices (err e) = devices
devices_after devices panicked = devices

-- What the write of a region does to the devices.
abbrev region_write : List ℕ → ℕ → MrEntry → Devices → Result Devices
region_write payload offset e devices = check_perms Verb.write e >>= λ _.
    Device.write offset payload (devices e.device.pointer) >>= λ d.
    ok (update e.device.pointer d devices)

local_write :
    (t : MrTable) (ext : DataExtHeader) (payload : List ℕ) (devices : Devices) (e : MrEntry) (o : ℕ)
    → Names t ext e o
    → ub_write_sync t ext.ub_addr payload devices
      ≡ region_write payload ((e.base_offset + o) % 2 ^ 64) e devices
unfolding ub_write_sync
local_write t ext payload devices e o v = rw (v.covering, ub_write_sync) refl

held :
    (t : MrTable) (ext : DataExtHeader) (e : MrEntry) (o : ℕ)
    → Names t ext e o
    → (hold ext.mr_handle t).0 ≡ some (record e { inflight_refs = (e.inflight_refs + 1) % 2 ^ 64 })
unfolding hold try_inflight_inc
held t ext e o v = rw (v.registered, v.active, hold) refl

module _ {F Sender : Type 0} where
  served_write :
      (payload : List ℕ) (ext : DataExtHeader) (e : MrEntry) (g : DataPlaneEngine F Sender)
      → (write_held payload ext e g).devices
        ≡ devices_after g.devices (region_write payload (device_offset ext e) e g.devices)
  unfolding write_held let_go with_table store_device dies
  served_write payload ext e g = elim (Result-cases (check_perms Verb.write e)) [
    | inl (u, allowed) ↦
        elim (Result-cases
          (Device.write (device_offset ext e) payload (g.devices e.device.pointer))) [
            | inl (d, wrote) ↦ rw (allowed, wrote, write_held) refl
            | inr (inl (x, failed)) ↦ rw (allowed, failed, write_held) refl
            | inr (inr failed) ↦ rw (allowed, failed, write_held) refl
          ]
    | inr (inl (x, refused)) ↦ rw (refused, write_held) refl
    | inr (inr failed) ↦ rw (failed, write_held) refl
  ]

  -- Serving a write for another node changes the devices as the local write at the address of
  -- the frame does, and leaves them alone where that fails, when the region that the frame names
  -- is the one that the table finds for the address and it is not being withdrawn.
  pub handle_write-ub_write_sync :
      (payload : List ℕ) (ext : DataExtHeader) (g : DataPlaneEngine F Sender) (e : MrEntry) (o : ℕ)
      → Names g.mr_table ext e o
      → (handle_write payload ext g).devices
        ≡ devices_after g.devices (ub_write_sync g.mr_table ext.ub_addr payload g.devices)
  unfolding handle_write with_table check_perms device_offset offset_in_mr
  handle_write-ub_write_sync payload ext g e o v =
      let at : (e.base_offset + offset_in_mr ext e) % 2 ^ 64 ≡ (e.base_offset + o) % 2 ^ 64 =
        offset_eq g.mr_table ext e o v in
      let away = held g.mr_table ext e o v in
      let there = local_write g.mr_table ext payload g.devices e o v in
      rw (away, there, sym at, handle_write)
        (served_write payload ext (record e { inflight_refs = (e.inflight_refs + 1) % 2 ^ 64 })
          (with_table (hold ext.mr_handle g.mr_table).1 g))

abbrev region_read : ℕ → ℕ → MrEntry → Devices → Result (List ℕ)
region_read len offset e devices =
    check_perms Verb.read_req e >>= λ _. Device.read offset len (devices e.device.pointer)

module _ {F Sender : Type 0} where
  -- The frames that answer a read, by what a local read gives.
  abbrev pub answer_read :
      Moment Sender
      → ℕ
      → DataExtHeader
      → DataPlaneEngine F Sender
      → Result (List ℕ)
      → TransportManager F Sender
  answer_read at node ext g (ok buf) = (respond at node Verb.read_resp ext buf g).transport
  answer_read at node ext g (err x) = (send_error_response at node ext (status_code x) g).transport
  answer_read at node ext g panicked = g.transport
