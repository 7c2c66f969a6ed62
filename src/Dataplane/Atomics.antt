-- ===== src/Dataplane/Atomics.antt =====
-- crates/ub-dataplane/src/lib.rs: the handlers of the atomic requests.
use unibus_toy.Base.{
  ℕ, ◌%◌, not, none, some, List, ◌++◌, ltb, ◌==◌, if◌then◌else◌, length, take, drop,
}
use unibus_toy.Base.Assoc.{number_key}
use unibus_toy.Core.Error.{Result, ok, err, panicked}
use unibus_toy.Core.Bytes.{be_bytes, from_be}
use unibus_toy.Core.Device
use unibus_toy.Core.Device.{Device}
use unibus_toy.Core.Mr.{MrEntry, check_perms}
use unibus_toy.Core.Verb.{Verb}
use unibus_toy.Wire.Frame.{DataExtHeader}
use unibus_toy.Dataplane.State.{
  DataPlaneEngine, Moment, offset_in_mr, device_offset, hold, with_table, let_go, dies,
}
use unibus_toy.Dataplane.Handlers.{store_device, respond, send_error_response, refuse}

-- The payload of an atomic response.
unfoldable pub old_value : ℕ → List ℕ
old_value old = be_bytes 8 old ++ (be_bytes 4 0 ++ be_bytes 4 0)

module _ {F Sender : Type 0} where
  -- What an atomic operation of the device gave, in the handler of the verb.
  unfoldable pub atomic_done :
      Moment Sender
      → ℕ
      → Verb
      → DataExtHeader
      → MrEntry
      → Result (ℕ × Device)
      → DataPlaneEngine F Sender
      → DataPlaneEngine F Sender
  atomic_done at node verb ext e (ok (old, d)) g =
      let_go ext.mr_handle
        (respond at node verb ext (old_value old) (store_device e.device.pointer d g))
  atomic_done at node verb ext e (err x) g =
      let_go ext.mr_handle (send_error_response at node ext 9 g)
  atomic_done at node verb ext e panicked g = dies g

  unfoldable pub cas_held :
      Moment Sender
      → ℕ
      → List ℕ
      → DataExtHeader
      → MrEntry
      → DataPlaneEngine F Sender
      → DataPlaneEngine F Sender
  cas_held at node payload ext e g = elim (check_perms Verb.atomic_cas e) [
    | ok u ↦
        if not (offset_in_mr ext e % 8 == 0)
        then refuse at node ext 3 g
        else if ltb (length payload) 16
        then refuse at node ext 9 g
        else atomic_done at node Verb.atomic_cas_resp ext e
            (Device.atomic_cas (device_offset ext e) (from_be 0 (take 8 payload))
              (from_be 0 (take 8 (drop 8 payload))) (g.devices e.device.pointer))
            g
    | err x ↦ refuse at node ext 2 g
    | panicked ↦ dies g
  ]

  unfoldable pub handle_atomic_cas :
      Moment Sender
      → ℕ
      → List ℕ
      → DataExtHeader
      → DataPlaneEngine F Sender
      → DataPlaneEngine F Sender
  handle_atomic_cas at node payload ext g = elim (hold ext.mr_handle g.mr_table).0 [
    | none ↦ send_error_response at node ext 1 g
    | some e ↦ cas_held at node payload ext e (with_table (hold ext.mr_handle g.mr_table).1 g)
  ]

  unfoldable pub faa_held :
      Moment Sender
      → ℕ
      → List ℕ
      → DataExtHeader
      → MrEntry
      → DataPlaneEngine F Sender
      → DataPlaneEngine F Sender
  faa_held at node payload ext e g = elim (check_perms Verb.atomic_faa e) [
    | ok u ↦
        if not (offset_in_mr ext e % 8 == 0)
        then refuse at node ext 3 g
        else if ltb (length payload) 8
        then refuse at node ext 9 g
        else atomic_done at node Verb.atomic_faa_resp ext e
            (Device.atomic_faa (device_offset ext e) (from_be 0 (take 8 payload))
              (g.devices e.device.pointer))
            g
    | err x ↦ refuse at node ext 2 g
    | panicked ↦ dies g
  ]

  unfoldable pub handle_atomic_faa :
      Moment Sender
      → ℕ
      → List ℕ
      → DataExtHeader
      → DataPlaneEngine F Sender
      → DataPlaneEngine F Sender
  handle_atomic_faa at node payload ext g = elim (hold ext.mr_handle g.mr_table).0 [
    | none ↦ send_error_response at node ext 1 g
    | some e ↦ faa_held at node payload ext e (with_table (hold ext.mr_handle g.mr_table).1 g)
  ]
