-- ===== src/Dataplane/Calls.antt =====
-- crates/ub-dataplane/src/lib.rs: the calls of the verb engine, `ub_*_remote`. A call that waits
-- for its response is two steps: what it does until it waits, and what it does with the outcome,
-- which is the response on its channel or none when the time is over.
use unibus_toy.Base.{
  ℕ, ◌+◌, ◌%◌, ◌^◌, Bool, true, false, Option, none, some, List, ◌++◌, ltb, leb, ◌==◌,
  if◌then◌else◌, length, take,
}
use unibus_toy.Base.Assoc.{number_key, insert as map_insert, remove as map_remove}
use unibus_toy.Core.Error.{
  Result, ok, err, panicked, addr_invalid, payload_too_large, timeout, internal, cas_too_short,
  faa_too_short, Report,
}
use unibus_toy.Core.Addr
use unibus_toy.Core.Bytes.{be_bytes, from_be}
use unibus_toy.Core.Jetty.{JettyAddr}
use unibus_toy.Core.MrCache.{lookup_by_addr}
use unibus_toy.Core.Verb.{Verb}
use unibus_toy.Transport.Manager.Operations.{register_peer_sender}
use unibus_toy.Transport.Manager.Send
use unibus_toy.Dataplane.Frames.{
  max_payload_size, build_data_frame, build_data_frame_ex, status_to_error,
}
use unibus_toy.Dataplane.State.{VerbResponse, DataPlaneEngine, Moment}
use unibus_toy.Dataplane.Dispatch.{with_transport}

-- `send(…)?` of a call, with what it then returns
abbrev pub sent_as {ℓ κ} : {A : Type ℓ} {B : Type κ} → B → Result A → Result B
sent_as b (ok a) = ok b
sent_as b (err e) = err e
sent_as b panicked = panicked

-- The result of a read, and of an atomic operation, by the response.
unfoldable pub read_result : VerbResponse → Result (List ℕ)
read_result r = if r.status == 0 then ok r.payload else err (status_to_error r.status)

unfoldable pub atomic_result : Report → VerbResponse → Result ℕ
atomic_result too_short r =
    if r.status == 0
    then (if leb 8 (length r.payload)
        then ok (from_be 0 (take 8 r.payload))
        else err (internal too_short))
    else err (status_to_error r.status)

module _ {F Sender : Type 0} where
  -- `connect_peer`, without the task that writes to the network
  unfoldable pub connect_peer : ℕ → Sender → DataPlaneEngine F Sender → DataPlaneEngine F Sender
  connect_peer node_id sender g = with_transport (register_peer_sender g.transport node_id sender) g

  -- `self.transport.send(…)?`
  unfoldable pub post :
      Moment Sender
      → ℕ
      → List ℕ
      → Bool
      → ℕ
      → DataPlaneEngine F Sender
      → Result (Unit {0}) × DataPlaneEngine F Sender
  post at node frame ff opaque g =
      let r = Send.send at.accepts at.first_now at.second_now g.transport node frame ff opaque in
      (sent_as tt r.2, with_transport r.0 g)

  unfoldable pub ub_write_remote :
      Moment Sender
      → ℕ
      → List ℕ
      → DataPlaneEngine F Sender
      → Result (Unit {0}) × DataPlaneEngine F Sender
  ub_write_remote at addr buf g =
      if ltb max_payload_size (length buf)
      then (err payload_too_large, g)
      else elim (lookup_by_addr addr g.mr_cache) [
        | none ↦ (err addr_invalid, g)
        | some e ↦
            post at e.owner_node
              (build_data_frame g.local_node_id e.owner_node Verb.write e.remote_mr_handle addr 0
                buf)
              true 0 g
      ]

  -- `next_opaque.fetch_add(1)` and the channel of the response, entered under it
  unfoldable pub open_request : DataPlaneEngine F Sender → DataPlaneEngine F Sender
  open_request g = record g {
    next_opaque = (g.next_opaque + 1) % 2 ^ 64;
    next_channel = g.next_channel + 1;
    pending_requests = map_insert g.next_opaque g.next_channel g.pending_requests;
  }

  -- A call up to its wait: the result is the opaque number of the request and its channel.
  unfoldable pub request :
      Verb
      → Moment Sender
      → ℕ
      → List ℕ
      → DataPlaneEngine F Sender
      → Result (ℕ × ℕ) × DataPlaneEngine F Sender
  request verb at addr payload g = elim (lookup_by_addr addr g.mr_cache) [
    | none ↦ (err addr_invalid, g)
    | some e ↦
        let r =
          post at e.owner_node
            (build_data_frame g.local_node_id e.owner_node verb e.remote_mr_handle addr
              g.next_opaque payload)
            false g.next_opaque (open_request g) in
        (sent_as (g.next_opaque, g.next_channel) r.0, r.1)
  ]

  unfoldable pub ub_read_remote :
      Moment Sender → ℕ → ℕ → DataPlaneEngine F Sender → Result (ℕ × ℕ) × DataPlaneEngine F Sender
  ub_read_remote at addr len g = request Verb.read_req at addr (be_bytes 4 len) g

  unfoldable pub ub_atomic_cas_remote :
      Moment Sender
      → ℕ
      → ℕ
      → ℕ
      → DataPlaneEngine F Sender
      → Result (ℕ × ℕ) × DataPlaneEngine F Sender
  ub_atomic_cas_remote at addr expect new g =
      request Verb.atomic_cas at addr (be_bytes 8 expect ++ be_bytes 8 new) g

  unfoldable pub ub_atomic_faa_remote :
      Moment Sender → ℕ → ℕ → DataPlaneEngine F Sender → Result (ℕ × ℕ) × DataPlaneEngine F Sender
  ub_atomic_faa_remote at addr add g = request Verb.atomic_faa at addr (be_bytes 8 add) g

  -- The end of a call: the response, or the request withdrawn.
  unfoldable pub outcome {ℓ} :
      {A : Type ℓ}
      → (VerbResponse → Result A)
      → ℕ
      → Option VerbResponse
      → DataPlaneEngine F Sender
      → Result A × DataPlaneEngine F Sender
  outcome result opaque (some r) g = (result r, g)
  outcome result opaque none g =
      (err timeout, record g { pending_requests = map_remove opaque g.pending_requests })

  unfoldable pub end_read :
      ℕ
      → Option VerbResponse
      → DataPlaneEngine F Sender
      → Result (List ℕ) × DataPlaneEngine F Sender
  end_read opaque r g = outcome read_result opaque r g

  unfoldable pub end_atomic_cas :
      ℕ → Option VerbResponse → DataPlaneEngine F Sender → Result ℕ × DataPlaneEngine F Sender
  end_atomic_cas opaque r g = outcome (atomic_result cas_too_short) opaque r g

  unfoldable pub end_atomic_faa :
      ℕ → Option VerbResponse → DataPlaneEngine F Sender → Result ℕ × DataPlaneEngine F Sender
  end_atomic_faa opaque r g = outcome (atomic_result faa_too_short) opaque r g

  -- `ub_send_remote` and `ub_send_with_imm_remote`, without an immediate and with one
  unfoldable pub send_remote :
      Moment Sender
      → ℕ
      → JettyAddr
      → Option ℕ
      → List ℕ
      → DataPlaneEngine F Sender
      → Result (Unit {0}) × DataPlaneEngine F Sender
  send_remote at jetty_src dst imm buf g =
      if ltb max_payload_size (length buf)
      then (err payload_too_large, g)
      else post at dst.node_id
          (build_data_frame_ex g.local_node_id dst.node_id Verb.send 0 (Addr.new 0 0 0 0 0) 0
            jetty_src dst.jetty_id imm buf)
          true 0 g

  unfoldable pub ub_send_remote :
      Moment Sender
      → ℕ
      → JettyAddr
      → List ℕ
      → DataPlaneEngine F Sender
      → Result (Unit {0}) × DataPlaneEngine F Sender
  ub_send_remote at jetty_src dst buf g = send_remote at jetty_src dst none buf g

  unfoldable pub ub_send_with_imm_remote :
      Moment Sender
      → ℕ
      → JettyAddr
      → List ℕ
      → ℕ
      → DataPlaneEngine F Sender
      → Result (Unit {0}) × DataPlaneEngine F Sender
  ub_send_with_imm_remote at jetty_src dst buf imm g = send_remote at jetty_src dst (some imm) buf g

  unfoldable pub ub_write_imm_remote :
      Moment Sender
      → ℕ
      → List ℕ
      → ℕ
      → ℕ
      → JettyAddr
      → DataPlaneEngine F Sender
      → Result (Unit {0}) × DataPlaneEngine F Sender
  ub_write_imm_remote at addr buf imm jetty_src dst g =
      if ltb max_payload_size (length buf)
      then (err payload_too_large, g)
      else elim (lookup_by_addr addr g.mr_cache) [
        | none ↦ (err addr_invalid, g)
        | some e ↦
            post at e.owner_node
              (build_data_frame_ex g.local_node_id e.owner_node Verb.write_imm e.remote_mr_handle
                addr 0 jetty_src dst.jetty_id (some imm) buf)
              true 0 g
      ]
