-- ===== src/Dataplane/Sessions.antt =====
-- The sessions of the transport under the handlers of crates/ub-dataplane/src/lib.rs.
use unibus_toy.Base.{
  ℕ, ◌%◌, inl, inr, none, some, List, ltb, ◌==◌, length, take, drop, Bool-cases, Option-cases,
}
use unibus_toy.Core.Error.{Result, ok, err, panicked, Result-cases}
use unibus_toy.Core.Bytes.{be_bytes, from_be}
use unibus_toy.Core.Device
use unibus_toy.Core.Device.{Device}
use unibus_toy.Core.Mr.{MrEntry, check_perms}
use unibus_toy.Core.Verb.{Verb}
use unibus_toy.Wire.Frame.{DataExtHeader, ext_flag_err_resp}
use unibus_toy.Transport.Manager.Operations.{read_cache_insert}
use unibus_toy.Transport.Manager.Executed.{
  HasSession, read_cache_insert-HasSession, send_frame-HasSession,
}
use unibus_toy.Dataplane.Frames.{build_data_frame, build_data_frame_with_flags}
use unibus_toy.Dataplane.State.{
  DataPlaneEngine, Moment, offset_in_mr, device_offset, hold, let_go, with_table, dies,
}
use unibus_toy.Dataplane.Handlers.{
  on_jetty, store_device, write_held, complete_write, write_imm_held, reply, respond,
  send_error_response, refuse,
}
use unibus_toy.Dataplane.Atomics.{old_value, atomic_done, cas_held, faa_held}

module _ {F Sender : Type 0} where
  -- A session with the node that there was is there still.
  abbrev pub Keeps : ℕ → DataPlaneEngine F Sender → DataPlaneEngine F Sender → Type 0
  Keeps node g r = HasSession g.transport node → HasSession r.transport node

  pub held-Keeps :
      (h node : ℕ) (g other : DataPlaneEngine F Sender)
      (k : MrEntry → DataPlaneEngine F Sender → DataPlaneEngine F Sender)
      → Keeps node g other
      → ((e : MrEntry) (g' : DataPlaneEngine F Sender) → Keeps node g' (k e g'))
      → Keeps node g (elim (hold h g.mr_table).0 [
        | none ↦ other
        | some e ↦ k e (with_table (hold h g.mr_table).1 g)
      ])
  unfolding with_table
  held-Keeps h node g other k same keeps = elim (Option-cases (hold h g.mr_table).0) [
    | inl nothing ↦ rw nothing same
    | inr (e, held) ↦ rw held (keeps e (with_table (hold h g.mr_table).1 g))
  ]

  pub write_held-Keeps :
      (node : ℕ) (payload : List ℕ) (ext : DataExtHeader) (e : MrEntry)
      (g : DataPlaneEngine F Sender)
      → Keeps node g (write_held payload ext e g)
  unfolding write_held let_go with_table store_device dies
  write_held-Keeps node payload ext e g h = elim (Result-cases (check_perms Verb.write e)) [
    | inl (u, allowed) ↦
        elim (Result-cases
          (Device.write (device_offset ext e) payload (g.devices e.device.pointer))) [
            | inl (d, wrote) ↦ rw (allowed, wrote, write_held) h
            | inr (inl (x, failed)) ↦ rw (allowed, failed, write_held) h
            | inr (inr failed) ↦ rw (allowed, failed, write_held) h
          ]
    | inr (inl (x, refused)) ↦ rw (refused, write_held) h
    | inr (inr failed) ↦ rw (failed, write_held) h
  ]

  pub write_imm_held-Keeps :
      (node : ℕ) (payload : List ℕ) (ext : DataExtHeader) (e : MrEntry)
      (g : DataPlaneEngine F Sender)
      → Keeps node g (write_imm_held payload ext e g)
  unfolding write_imm_held complete_write on_jetty let_go with_table store_device dies
  write_imm_held-Keeps node payload ext e g h = elim (Result-cases (check_perms Verb.write_imm e)) [
    | inl (u, allowed) ↦
        elim (Result-cases
          (Device.write (device_offset ext e) payload (g.devices e.device.pointer))) [
            | inl (d, wrote) ↦ rw (allowed, wrote, write_imm_held) h
            | inr (inl (x, failed)) ↦ rw (allowed, failed, write_imm_held) h
            | inr (inr failed) ↦ rw (allowed, failed, write_imm_held) h
          ]
    | inr (inl (x, refused)) ↦ rw (refused, write_imm_held) h
    | inr (inr failed) ↦ rw (failed, write_imm_held) h
  ]

  pub error-Keeps :
      (at : Moment Sender) (to node status : ℕ) (ext : DataExtHeader) (g : DataPlaneEngine F Sender)
      → Keeps node g (send_error_response at to ext status g)
  unfolding send_error_response reply
  error-Keeps at to node status ext g h =
      send_frame-HasSession at.accepts g.transport to node
        (build_data_frame_with_flags g.local_node_id to ext.verb ext.mr_handle ext.ub_addr
          ext.opaque (be_bytes 4 status) ext_flag_err_resp)
        h

  refuse-Keeps :
      (at : Moment Sender) (to node status : ℕ) (ext : DataExtHeader) (g : DataPlaneEngine F Sender)
      → Keeps node g (refuse at to ext status g)
  unfolding refuse let_go with_table
  refuse-Keeps at to node status ext g h =
      error-Keeps at to node status ext (let_go ext.mr_handle g) h

  respond-Keeps :
      (at : Moment Sender) (node : ℕ) (verb : Verb) (ext : DataExtHeader) (payload : List ℕ)
      (g : DataPlaneEngine F Sender)
      → Keeps node g (respond at node verb ext payload g)
  unfolding respond reply
  respond-Keeps at node verb ext payload g h =
      let bytes =
        build_data_frame g.local_node_id node verb ext.mr_handle ext.ub_addr ext.opaque payload in
      send_frame-HasSession at.accepts
        (read_cache_insert at.first_now at.second_now g.transport node (node, ext.opaque) bytes)
        node node bytes
        (read_cache_insert-HasSession at.first_now at.second_now g.transport node (node, ext.opaque)
          bytes h)

  atomic_done-Keeps :
      (at : Moment Sender) (node : ℕ) (verb : Verb) (ext : DataExtHeader) (e : MrEntry)
      (r : Result (ℕ × Device)) (g : DataPlaneEngine F Sender)
      → Keeps node g (atomic_done at node verb ext e r g)
  unfolding atomic_done let_go with_table store_device dies
  atomic_done-Keeps at node verb ext e (ok (old, d)) g h =
      respond-Keeps at node verb ext (old_value old) (store_device e.device.pointer d g) h
  atomic_done-Keeps at node verb ext e (err x) g h = error-Keeps at node node 9 ext g h
  atomic_done-Keeps at node verb ext e panicked g h = h

  pub cas_held-Keeps :
      (at : Moment Sender) (node : ℕ) (payload : List ℕ) (ext : DataExtHeader) (e : MrEntry)
      (g : DataPlaneEngine F Sender)
      → Keeps node g (cas_held at node payload ext e g)
  unfolding cas_held dies
  cas_held-Keeps at node payload ext e g h = elim (Result-cases (check_perms Verb.atomic_cas e)) [
    | inl (u, allowed) ↦ elim (Bool-cases (offset_in_mr ext e % 8 == 0)) [
      | inl aligned ↦ elim (Bool-cases (ltb (length payload) 16)) [
        | inl short ↦ rw (allowed, aligned, short, cas_held) (refuse-Keeps at node node 9 ext g h)
        | inr long ↦
            rw (allowed, aligned, long, cas_held)
              (atomic_done-Keeps at node Verb.atomic_cas_resp ext e
                (Device.atomic_cas (device_offset ext e) (from_be 0 (take 8 payload))
                  (from_be 0 (take 8 (drop 8 payload))) (g.devices e.device.pointer))
                g h)
      ]
      | inr odd ↦ rw (allowed, odd, cas_held) (refuse-Keeps at node node 3 ext g h)
    ]
    | inr (inl (x, refused)) ↦ rw (refused, cas_held) (refuse-Keeps at node node 2 ext g h)
    | inr (inr failed) ↦ rw (failed, cas_held) h
  ]

  pub faa_held-Keeps :
      (at : Moment Sender) (node : ℕ) (payload : List ℕ) (ext : DataExtHeader) (e : MrEntry)
      (g : DataPlaneEngine F Sender)
      → Keeps node g (faa_held at node payload ext e g)
  unfolding faa_held dies
  faa_held-Keeps at node payload ext e g h = elim (Result-cases (check_perms Verb.atomic_faa e)) [
    | inl (u, allowed) ↦ elim (Bool-cases (offset_in_mr ext e % 8 == 0)) [
      | inl aligned ↦ elim (Bool-cases (ltb (length payload) 8)) [
        | inl short ↦ rw (allowed, aligned, short, faa_held) (refuse-Keeps at node node 9 ext g h)
        | inr long ↦
            rw (allowed, aligned, long, faa_held)
              (atomic_done-Keeps at node Verb.atomic_faa_resp ext e
                (Device.atomic_faa (device_offset ext e) (from_be 0 (take 8 payload))
                  (g.devices e.device.pointer))
                g h)
      ]
      | inr odd ↦ rw (allowed, odd, faa_held) (refuse-Keeps at node node 3 ext g h)
    ]
    | inr (inl (x, refused)) ↦ rw (refused, faa_held) (refuse-Keeps at node node 2 ext g h)
    | inr (inr failed) ↦ rw (failed, faa_held) h
  ]
