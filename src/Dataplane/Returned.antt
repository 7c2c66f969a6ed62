-- ===== src/Dataplane/Returned.antt =====
-- The table of regions under the dispatch of crates/ub-dataplane/src/lib.rs.
use unibus_toy.Base.{
  ap, if◌then◌else◌, Bool, false, ℕ, ◌≡◌, refl, inl, inr, true, List, Bool-cases, Option-cases,
}
use unibus_toy.Base.Assoc.{number_key, lookup as map_lookup}
use unibus_toy.Core.Verb.{Verb}
use unibus_toy.Wire.Frame.{DataExtHeader}
use unibus_toy.Transport.Manager.State.{TransportManager, InboundFrame}
use unibus_toy.Transport.Manager.Operations.{is_executed, mark_executed, read_cache_get}
use unibus_toy.Dataplane.Dispatch.{
  response_of, with_transport, answer, complete_pending_request, resend_or, executed, atomic_once,
  write_once, handle_verb, handle_verb_frame,
}
use unibus_toy.Dataplane.State.{VerbResponse, DataPlaneEngine, Moment}
use unibus_toy.Dataplane.Handlers.{
  on_jetty, write_held, write_imm_held, reply, send_error_response, read_held, handle_write,
  handle_write_imm, handle_send, handle_read_req,
}
use unibus_toy.Dataplane.Atomics.{cas_held, faa_held, handle_atomic_cas, handle_atomic_faa}
use unibus_toy.Dataplane.Holds.{IsCounted, Serves, held-Serves}
use unibus_toy.Dataplane.GivesBack.{
  write_held-GivesBack, write_imm_held-GivesBack, read_held-GivesBack, cas_held-GivesBack,
  faa_held-GivesBack,
}

-- The verbs that ask for something, or bring something.
abbrev pub is_request : Verb → Bool
is_request Verb.read_resp = false
is_request Verb.atomic_cas_resp = false
is_request Verb.atomic_faa_resp = false
is_request _ = true

module _ {F Sender : Type 0} where
  either-Serves :
      (b : Bool) (g r q : DataPlaneEngine F Sender)
      → Serves g r
      → Serves g q
      → Serves g (if b then r else q)
  either-Serves true g r q hr hq = hr
  either-Serves false g r q hr hq = hq

  -- The steps around the handlers touch the transport only.
  executed-Serves :
      (node seq : ℕ) (g r : DataPlaneEngine F Sender) → Serves g r → Serves g (executed node seq r)
  unfolding executed
  executed-Serves node seq g r h =
      either-Serves r.alive g (with_transport (mark_executed r.transport node seq) r) r
        (h.0, ap (with_transport (mark_executed r.transport node seq)) h.1) h

  write_once-Serves :
      (f : InboundFrame) (handle : DataPlaneEngine F Sender → DataPlaneEngine F Sender)
      (g : DataPlaneEngine F Sender)
      → Serves g (handle g)
      → Serves g (write_once f handle g)
  unfolding write_once
  write_once-Serves f handle g h =
      elim (Bool-cases (is_executed g.transport f.header.src_node f.seq)) [
        | inl done ↦ rw done ((λ _. refl), refl)
        | inr new ↦ rw new (executed-Serves f.header.src_node f.seq g (handle g) h)
      ]

  resend_or-Serves :
      (at : Moment Sender) (node : ℕ) (ext : DataExtHeader)
      (otherwise : DataPlaneEngine F Sender → DataPlaneEngine F Sender)
      (g : DataPlaneEngine F Sender)
      → ((m : TransportManager F Sender) → Serves g (otherwise (with_transport m g)))
      → Serves g (resend_or at node ext otherwise g)
  unfolding resend_or reply
  resend_or-Serves at node ext otherwise g h =
      let r = read_cache_get at.first_now g.transport node (node, ext.opaque) in
      elim (Option-cases r.1) [
        | inl missing ↦ rw (missing, resend_or) (h r.0)
        | inr (bytes, cached) ↦ rw (cached, resend_or) ((λ _. refl), refl)
      ]

  atomic_once-Serves :
      (at : Moment Sender) (f : InboundFrame)
      (handle : DataPlaneEngine F Sender → DataPlaneEngine F Sender) (g : DataPlaneEngine F Sender)
      → Serves g (handle g)
      → Serves g (atomic_once at f handle g)
  unfolding atomic_once
  atomic_once-Serves at f handle g h =
      elim (Bool-cases (is_executed g.transport f.header.src_node f.seq)) [
        | inl done ↦
            rw done
              (resend_or-Serves at f.header.src_node f.ext (λ g. g) g (λ m. ((λ _. refl), refl)))
        | inr new ↦ rw new (executed-Serves f.header.src_node f.seq g (handle g) h)
      ]

  -- The arms of the requests.
  pub request-Serves :
      (verb : Verb) (at : Moment Sender) (f : InboundFrame) (g : DataPlaneEngine F Sender)
      → is_request verb ≡ true
      → IsCounted g.mr_table
      → Serves g (handle_verb verb at f g)
  unfolding handle_verb handle_write handle_write_imm handle_read_req handle_atomic_cas
      handle_atomic_faa handle_send on_jetty send_error_response reply
  request-Serves Verb.write at f g r v = write_once-Serves f _ g (
      held-Serves f.ext.mr_handle g g (write_held f.payload f.ext) v ((λ _. refl), refl)
        (write_held-GivesBack f.payload f.ext))
  request-Serves Verb.write_imm at f g r v = write_once-Serves f _ g (
      held-Serves f.ext.mr_handle g g (write_imm_held f.payload f.ext) v ((λ _. refl), refl)
        (write_imm_held-GivesBack f.payload f.ext))
  request-Serves Verb.read_req at f g r v = resend_or-Serves at f.header.src_node f.ext _ g (λ m.
      held-Serves f.ext.mr_handle (with_transport m g) _
        (read_held at f.header.src_node f.payload f.ext) v ((λ _. refl), refl)
        (read_held-GivesBack at f.header.src_node f.payload f.ext))
  request-Serves Verb.atomic_cas at f g r v = atomic_once-Serves at f _ g (
      held-Serves f.ext.mr_handle g _ (cas_held at f.header.src_node f.payload f.ext) v
        ((λ _. refl), refl) (cas_held-GivesBack at f.header.src_node f.payload f.ext))
  request-Serves Verb.atomic_faa at f g r v = atomic_once-Serves at f _ g (
      held-Serves f.ext.mr_handle g _ (faa_held at f.header.src_node f.payload f.ext) v
        ((λ _. refl), refl) (faa_held-GivesBack at f.header.src_node f.payload f.ext))
  request-Serves Verb.send at f g r v = ((λ _. refl), refl)
  request-Serves Verb.read_resp at f g r v = cc r
  request-Serves Verb.atomic_cas_resp at f g r v = cc r
  request-Serves Verb.atomic_faa_resp at f g r v = cc r

  answer_table :
      (opaque : ℕ) (r : VerbResponse) (g : DataPlaneEngine F Sender)
      → (answer opaque r g).mr_table ≡ g.mr_table
  unfolding answer
  answer_table opaque r g = elim (Option-cases (map_lookup opaque g.pending_requests)) [
    | inl missing ↦ rw (missing, answer) refl
    | inr (channel, there) ↦ rw (there, answer) refl
  ]

  complete_table :
      (node : ℕ) (payload : List ℕ) (ext : DataExtHeader) (g : DataPlaneEngine F Sender)
      → (complete_pending_request node payload ext g).mr_table ≡ g.mr_table
  unfolding complete_pending_request
  complete_table node payload ext g =
      elim (Option-cases (map_lookup ext.opaque g.pending_requests)) [
        | inl missing ↦ rw (missing, complete_pending_request) refl
        | inr (channel, there) ↦
            rw (there, complete_pending_request)
              (answer_table ext.opaque (response_of payload ext) g)
      ]

  verb_table :
      (verb : Verb) (at : Moment Sender) (f : InboundFrame) (g : DataPlaneEngine F Sender)
      → IsCounted g.mr_table
      → (handle_verb verb at f g).alive ≡ true
      → (handle_verb verb at f g).mr_table ≡ g.mr_table
  unfolding handle_verb
  verb_table Verb.read_resp at f g v live = complete_table f.header.src_node f.payload f.ext g
  verb_table Verb.atomic_cas_resp at f g v live = complete_table f.header.src_node f.payload f.ext g
  verb_table Verb.atomic_faa_resp at f g v live = complete_table f.header.src_node f.payload f.ext g
  verb_table Verb.read_req at f g v live = (request-Serves Verb.read_req at f g refl v).0 live
  verb_table Verb.write at f g v live = (request-Serves Verb.write at f g refl v).0 live
  verb_table Verb.atomic_cas at f g v live = (request-Serves Verb.atomic_cas at f g refl v).0 live
  verb_table Verb.atomic_faa at f g v live = (request-Serves Verb.atomic_faa at f g refl v).0 live
  verb_table Verb.send at f g v live = (request-Serves Verb.send at f g refl v).0 live
  verb_table Verb.write_imm at f g v live = (request-Serves Verb.write_imm at f g refl v).0 live

  -- Whatever frame comes, of whatever verb and on whatever path through its handler, the
  -- handling that does not panic leaves the table of memory regions as it was, when each handle
  -- has one entry and the counts of references fit 64 bits: a reference that was taken was given
  -- back.
  pub handle_verb_frame-mr_table :
      (at : Moment Sender) (f : InboundFrame) (g : DataPlaneEngine F Sender)
      → IsCounted g.mr_table
      → (handle_verb_frame at f g).alive ≡ true
      → (handle_verb_frame at f g).mr_table ≡ g.mr_table
  unfolding handle_verb_frame
  handle_verb_frame-mr_table at f g v live = verb_table f.ext.verb at f g v live
