-- ===== src/Dataplane/GivesBack.antt =====
-- What the handlers of crates/ub-dataplane/src/lib.rs do with the region that they hold.
use unibus_toy.Base.{ℕ, ◌%◌, refl, inl, inr, List, ◌==◌, Bool-cases, ltb, length, take, drop}
use unibus_toy.Base.Assoc.{number_key}
use unibus_toy.Core.Error.{Result, ok, err, panicked, Result-cases}
use unibus_toy.Core.Device
use unibus_toy.Core.Device.{Device}
use unibus_toy.Core.Verb.{Verb}
use unibus_toy.Wire.Frame.{DataExtHeader}
use unibus_toy.Core.Bytes.{from_be}
use unibus_toy.Core.Mr.{check_perms, MrEntry}
use unibus_toy.Dataplane.State.{
  DataPlaneEngine, Moment, offset_in_mr, device_offset, let_go, with_table, dies,
}
use unibus_toy.Dataplane.Handlers.{
  read_len, on_jetty, store_device, write_held, complete_write, write_imm_held, reply, respond,
  send_error_response, refuse, read_held,
}
use unibus_toy.Dataplane.Atomics.{atomic_done, cas_held, faa_held}
use unibus_toy.Dataplane.Holds.{GivesBack}

module _ {F Sender : Type 0} where
  pub write_held-GivesBack :
      (payload : List ℕ) (ext : DataExtHeader) (e : MrEntry) (g : DataPlaneEngine F Sender)
      → GivesBack ext.mr_handle g (write_held payload ext e g)
  unfolding write_held let_go with_table store_device dies
  write_held-GivesBack payload ext e g = elim (Result-cases (check_perms Verb.write e)) [
    | inl (u, allowed) ↦
        elim (Result-cases
          (Device.write (device_offset ext e) payload (g.devices e.device.pointer))) [
            | inl (d, wrote) ↦ rw (allowed, wrote, write_held) ((λ _. refl), refl)
            | inr (inl (x, failed)) ↦ rw (allowed, failed, write_held) ((λ _. refl), refl)
            | inr (inr failed) ↦ rw (allowed, failed, write_held) ((λ live. cc live), refl)
          ]
    | inr (inl (x, refused)) ↦ rw (refused, write_held) ((λ _. refl), refl)
    | inr (inr failed) ↦ rw (failed, write_held) ((λ live. cc live), refl)
  ]

  pub write_imm_held-GivesBack :
      (payload : List ℕ) (ext : DataExtHeader) (e : MrEntry) (g : DataPlaneEngine F Sender)
      → GivesBack ext.mr_handle g (write_imm_held payload ext e g)
  unfolding write_imm_held complete_write on_jetty let_go with_table store_device dies
  write_imm_held-GivesBack payload ext e g = elim (Result-cases (check_perms Verb.write_imm e)) [
    | inl (u, allowed) ↦
        elim (Result-cases
          (Device.write (device_offset ext e) payload (g.devices e.device.pointer))) [
            | inl (d, wrote) ↦ rw (allowed, wrote, write_imm_held) ((λ _. refl), refl)
            | inr (inl (x, failed)) ↦ rw (allowed, failed, write_imm_held) ((λ _. refl), refl)
            | inr (inr failed) ↦ rw (allowed, failed, write_imm_held) ((λ live. cc live), refl)
          ]
    | inr (inl (x, refused)) ↦ rw (refused, write_imm_held) ((λ _. refl), refl)
    | inr (inr failed) ↦ rw (failed, write_imm_held) ((λ live. cc live), refl)
  ]

  pub read_held-GivesBack :
      (at : Moment Sender) (node : ℕ) (payload : List ℕ) (ext : DataExtHeader) (e : MrEntry)
      (g : DataPlaneEngine F Sender)
      → GivesBack ext.mr_handle g (read_held at node payload ext e g)
  unfolding read_held refuse respond send_error_response reply let_go with_table dies
  read_held-GivesBack at node payload ext e g = elim (Result-cases (check_perms Verb.read_req e)) [
    | inl (u, allowed) ↦
        elim (Result-cases
          (Device.read (device_offset ext e) (read_len payload) (g.devices e.device.pointer))) [
            | inl (buf, got) ↦ rw (allowed, got, read_held) ((λ _. refl), refl)
            | inr (inl (x, failed)) ↦ rw (allowed, failed, read_held) ((λ _. refl), refl)
            | inr (inr failed) ↦ rw (allowed, failed, read_held) ((λ live. cc live), refl)
          ]
    | inr (inl (x, refused)) ↦ rw (refused, read_held) ((λ _. refl), refl)
    | inr (inr failed) ↦ rw (failed, read_held) ((λ live. cc live), refl)
  ]

  atomic_done-GivesBack :
      (at : Moment Sender) (node : ℕ) (verb : Verb) (ext : DataExtHeader) (e : MrEntry)
      (r : Result (ℕ × Device)) (g : DataPlaneEngine F Sender)
      → GivesBack ext.mr_handle g (atomic_done at node verb ext e r g)
  unfolding atomic_done respond send_error_response reply store_device let_go with_table dies
  atomic_done-GivesBack at node verb ext e (ok (old, d)) g = ((λ _. refl), refl)
  atomic_done-GivesBack at node verb ext e (err x) g = ((λ _. refl), refl)
  atomic_done-GivesBack at node verb ext e panicked g = ((λ live. cc live), refl)

  pub cas_held-GivesBack :
      (at : Moment Sender) (node : ℕ) (payload : List ℕ) (ext : DataExtHeader) (e : MrEntry)
      (g : DataPlaneEngine F Sender)
      → GivesBack ext.mr_handle g (cas_held at node payload ext e g)
  unfolding cas_held refuse send_error_response reply let_go with_table dies
  cas_held-GivesBack at node payload ext e g = elim (Result-cases (check_perms Verb.atomic_cas e)) [
    | inl (u, allowed) ↦ elim (Bool-cases (offset_in_mr ext e % 8 == 0)) [
      | inl aligned ↦ elim (Bool-cases (ltb (length payload) 16)) [
        | inl short ↦ rw (allowed, aligned, short, cas_held) ((λ _. refl), refl)
        | inr long ↦
            rw (allowed, aligned, long, cas_held)
              (atomic_done-GivesBack at node Verb.atomic_cas_resp ext e
                (Device.atomic_cas (device_offset ext e) (from_be 0 (take 8 payload))
                  (from_be 0 (take 8 (drop 8 payload))) (g.devices e.device.pointer))
                g)
      ]
      | inr odd ↦ rw (allowed, odd, cas_held) ((λ _. refl), refl)
    ]
    | inr (inl (x, refused)) ↦ rw (refused, cas_held) ((λ _. refl), refl)
    | inr (inr failed) ↦ rw (failed, cas_held) ((λ live. cc live), refl)
  ]

  pub faa_held-GivesBack :
      (at : Moment Sender) (node : ℕ) (payload : List ℕ) (ext : DataExtHeader) (e : MrEntry)
      (g : DataPlaneEngine F Sender)
      → GivesBack ext.mr_handle g (faa_held at node payload ext e g)
  unfolding faa_held refuse send_error_response reply let_go with_table dies
  faa_held-GivesBack at node payload ext e g = elim (Result-cases (check_perms Verb.atomic_faa e)) [
    | inl (u, allowed) ↦ elim (Bool-cases (offset_in_mr ext e % 8 == 0)) [
      | inl aligned ↦ elim (Bool-cases (ltb (length payload) 8)) [
        | inl short ↦ rw (allowed, aligned, short, faa_held) ((λ _. refl), refl)
        | inr long ↦
            rw (allowed, aligned, long, faa_held)
              (atomic_done-GivesBack at node Verb.atomic_faa_resp ext e
                (Device.atomic_faa (device_offset ext e) (from_be 0 (take 8 payload))
                  (g.devices e.device.pointer))
                g)
      ]
      | inr odd ↦ rw (allowed, odd, faa_held) ((λ _. refl), refl)
    ]
    | inr (inl (x, refused)) ↦ rw (refused, faa_held) ((λ _. refl), refl)
    | inr (inr failed) ↦ rw (failed, faa_held) ((λ live. cc live), refl)
  ]
