-- ===== src/Dataplane/Dispatch.antt =====
-- crates/ub-dataplane/src/lib.rs: the dispatch of the frames that come out of the transport, and
-- the end of a connection.
use unibus_toy.Base.{
  ℕ, not, ◌&&◌, none, some, List, [], ◌∷◌, ◌++◌, leb, if◌then◌else◌, length, take,
}
use unibus_toy.Base.Assoc.{number_key, lookup as map_lookup, remove as map_remove}
use unibus_toy.Core.Bytes.{from_be}
use unibus_toy.Core.Verb.{
  Verb, read_req, read_resp, write, atomic_cas, atomic_faa, send, write_imm, atomic_cas_resp,
  atomic_faa_resp,
}
use unibus_toy.Wire.Frame.{DataExtHeader, contains_err_resp}
use unibus_toy.Transport.Session.State.{RetransmitEntry}
use unibus_toy.Transport.Manager.State.{TransportManager, InboundFrame}
use unibus_toy.Transport.Manager.Operations.{
  is_executed, mark_executed, read_cache_get, complete_request, notify_peer_down,
}
use unibus_toy.Dataplane.State.{VerbResponse, DataPlaneEngine, Moment}
use unibus_toy.Dataplane.Handlers.{
  reply, handle_write, handle_write_imm, handle_send, handle_read_req,
}
use unibus_toy.Dataplane.Atomics.{handle_atomic_cas, handle_atomic_faa}

-- What a response frame says.
unfoldable pub response_of : List ℕ → DataExtHeader → VerbResponse
response_of payload ext = record {
  status =
      if contains_err_resp ext.ext_flags && leb 4 (length payload)
      then from_be 0 (take 4 payload)
      else 0;
  payload = if contains_err_resp ext.ext_flags then [] else payload;
}

module _ {F Sender : Type 0} where
  abbrev pub with_transport :
      TransportManager F Sender → DataPlaneEngine F Sender → DataPlaneEngine F Sender
  with_transport m g = record g { transport = m }

  -- `pending.remove(&opaque)`, and the response on the channel that was there
  unfoldable pub answer : ℕ → VerbResponse → DataPlaneEngine F Sender → DataPlaneEngine F Sender
  answer opaque response g = elim (map_lookup opaque g.pending_requests) [
    | none ↦ g
    | some channel ↦ record g {
      pending_requests = map_remove opaque g.pending_requests;
      answered = g.answered ++ ((channel, response) ∷ []);
    }
  ]

  unfoldable pub complete_pending_request :
      ℕ → List ℕ → DataExtHeader → DataPlaneEngine F Sender → DataPlaneEngine F Sender
  complete_pending_request remote_node payload ext g =
      elim (map_lookup ext.opaque g.pending_requests) [
        | none ↦ g
        | some channel ↦
            with_transport (complete_request g.transport remote_node ext.opaque)
              (answer ext.opaque (response_of payload ext) g)
      ]

  -- The cached response of the request, sent again if it is there; else what `otherwise` does.
  unfoldable pub resend_or :
      Moment Sender
      → ℕ
      → DataExtHeader
      → (DataPlaneEngine F Sender → DataPlaneEngine F Sender)
      → DataPlaneEngine F Sender
      → DataPlaneEngine F Sender
  resend_or at node ext otherwise g =
      let r = read_cache_get at.first_now g.transport node (node, ext.opaque) in
      elim r.1 [
        | some bytes ↦ reply at node bytes (with_transport r.0 g)
        | none ↦ otherwise (with_transport r.0 g)
      ]

  -- `transport.mark_executed`, which a handler that panicked does not come to
  unfoldable pub executed : ℕ → ℕ → DataPlaneEngine F Sender → DataPlaneEngine F Sender
  executed node seq g = if g.alive then with_transport (mark_executed g.transport node seq) g else g

  -- The arm of an atomic request.
  unfoldable pub atomic_once :
      Moment Sender
      → InboundFrame
      → (DataPlaneEngine F Sender → DataPlaneEngine F Sender)
      → DataPlaneEngine F Sender
      → DataPlaneEngine F Sender
  atomic_once at f handle g =
      if is_executed g.transport f.header.src_node f.seq
      then resend_or at f.header.src_node f.ext (λ g. g) g
      else executed f.header.src_node f.seq (handle g)

  -- The arm of a write.
  unfoldable pub write_once :
      InboundFrame
      → (DataPlaneEngine F Sender → DataPlaneEngine F Sender)
      → DataPlaneEngine F Sender
      → DataPlaneEngine F Sender
  write_once f handle g =
      if is_executed g.transport f.header.src_node f.seq
      then g
      else executed f.header.src_node f.seq (handle g)

  -- The arms of `handle_verb_frame`
  unfoldable pub handle_verb :
      Verb → Moment Sender → InboundFrame → DataPlaneEngine F Sender → DataPlaneEngine F Sender
  handle_verb write at f g = write_once f (handle_write f.payload f.ext) g
  handle_verb read_req at f g =
      resend_or at f.header.src_node f.ext (handle_read_req at f.header.src_node f.payload f.ext) g
  handle_verb atomic_cas at f g =
      atomic_once at f (handle_atomic_cas at f.header.src_node f.payload f.ext) g
  handle_verb atomic_faa at f g =
      atomic_once at f (handle_atomic_faa at f.header.src_node f.payload f.ext) g
  handle_verb send at f g = handle_send f.payload f.ext g
  handle_verb write_imm at f g = write_once f (handle_write_imm f.payload f.ext) g
  handle_verb read_resp at f g = complete_pending_request f.header.src_node f.payload f.ext g
  handle_verb atomic_cas_resp at f g = complete_pending_request f.header.src_node f.payload f.ext g
  handle_verb atomic_faa_resp at f g = complete_pending_request f.header.src_node f.payload f.ext g

  unfoldable pub handle_verb_frame :
      Moment Sender → InboundFrame → DataPlaneEngine F Sender → DataPlaneEngine F Sender
  handle_verb_frame at f g = handle_verb f.ext.verb at f g

  -- One round of the task of the inbound frames.
  unfoldable pub next_inbound : Moment Sender → DataPlaneEngine F Sender → DataPlaneEngine F Sender
  next_inbound at g = elim g.transport.inbound [
    | [] ↦ g
    | f ∷ rest ↦
        if g.alive
        then handle_verb_frame at f (with_transport (record g.transport { inbound = rest }) g)
        else g
  ]

  -- The loop of `disconnect_peer`: status 4 is that of a link that is down.
  unfoldable pub fail_requests :
      List RetransmitEntry → DataPlaneEngine F Sender → DataPlaneEngine F Sender
  fail_requests [] g = g
  fail_requests (e ∷ es) g = fail_requests es (
      if not e.is_fire_and_forget
      then answer e.opaque (record { status = 4; payload = [] }) g
      else g)

  unfoldable pub disconnect_peer : ℕ → DataPlaneEngine F Sender → DataPlaneEngine F Sender
  disconnect_peer node_id g =
      let r = notify_peer_down g.transport node_id in fail_requests r.1 (with_transport r.0 g)
