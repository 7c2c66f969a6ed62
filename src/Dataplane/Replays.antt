-- ===== src/Dataplane/Replays.antt =====
-- Requests that crates/ub-dataplane/src/lib.rs gets more than once.
use unibus_toy.Base.{ℕ, ◌≡◌, refl, ◌∙◌, inl, inr, Bool, true, false, Bool-cases, Option-cases}
use unibus_toy.Core.Verb.{Verb}
use unibus_toy.Wire.Frame.{DataExtHeader}
use unibus_toy.Transport.Manager.State.{InboundFrame}
use unibus_toy.Transport.Manager.Operations.{is_executed, read_cache_get}
use unibus_toy.Transport.Manager.Executed.{
  HasSession, is_executed-mark_executed, is_executed-send_frame, is_executed-read_cache_get,
}
use unibus_toy.Dataplane.State.{DataPlaneEngine, Moment}
use unibus_toy.Dataplane.Handlers.{
  reply, write_held, write_imm_held, handle_write, handle_write_imm,
}
use unibus_toy.Dataplane.Atomics.{cas_held, faa_held, handle_atomic_cas, handle_atomic_faa}
use unibus_toy.Dataplane.Dispatch.{
  resend_or, executed, atomic_once, write_once, handle_verb, handle_verb_frame,
}
use unibus_toy.Dataplane.Sessions.{
  held-Keeps, write_held-Keeps, write_imm_held-Keeps, error-Keeps, cas_held-Keeps, faa_held-Keeps,
}

-- The verbs whose frames are recorded as executed.
abbrev pub runs_once : Verb → Bool
runs_once Verb.write = true
runs_once Verb.write_imm = true
runs_once Verb.atomic_cas = true
runs_once Verb.atomic_faa = true
runs_once _ = false

module _ {F Sender : Type 0} where
  abbrev Recorded : InboundFrame → DataPlaneEngine F Sender → Type 0
  Recorded f r = is_executed r.transport f.header.src_node f.seq ≡ true

  executed-Recorded :
      (f : InboundFrame) (r : DataPlaneEngine F Sender)
      → HasSession r.transport f.header.src_node
      → (executed f.header.src_node f.seq r).alive ≡ true
      → Recorded f (executed f.header.src_node f.seq r)
  unfolding executed
  executed-Recorded f r h live = elim (Bool-cases r.alive) [
    | inl up ↦ simp up (is_executed-mark_executed r.transport f.header.src_node f.seq h)
    | inr down ↦ cc (simp down at live)
  ]

  write_once-Recorded :
      (f : InboundFrame) (handle : DataPlaneEngine F Sender → DataPlaneEngine F Sender)
      (g : DataPlaneEngine F Sender)
      → HasSession (handle g).transport f.header.src_node
      → (write_once f handle g).alive ≡ true
      → Recorded f (write_once f handle g)
  unfolding write_once
  write_once-Recorded f handle g h live =
      elim (Bool-cases (is_executed g.transport f.header.src_node f.seq)) [
        | inl done ↦ rw (done, write_once) done
        | inr new ↦
            rw (new, write_once) (executed-Recorded f (handle g) h (rw (new, write_once) at live))
      ]

  resend_or-Recorded :
      (at : Moment Sender) (f : InboundFrame) (g : DataPlaneEngine F Sender)
      → HasSession g.transport f.header.src_node
      → Recorded f g
      → Recorded f (resend_or at f.header.src_node f.ext (λ g. g) g)
  unfolding resend_or reply
  resend_or-Recorded at f g h done =
      let node = f.header.src_node in
      let r = read_cache_get at.first_now g.transport node (node, f.ext.opaque) in
      let still =
        is_executed-read_cache_get at.first_now g.transport node f.seq (node, f.ext.opaque) h
        ∙ done in
      elim (Option-cases r.1) [
        | inl missing ↦ rw (missing, resend_or) still
        | inr (bytes, cached) ↦
            rw (cached, resend_or)
              (is_executed-send_frame at.accepts r.0 node node f.seq bytes ∙ still)
      ]

  atomic_once-Recorded :
      (at : Moment Sender) (f : InboundFrame)
      (handle : DataPlaneEngine F Sender → DataPlaneEngine F Sender) (g : DataPlaneEngine F Sender)
      → HasSession g.transport f.header.src_node
      → HasSession (handle g).transport f.header.src_node
      → (atomic_once at f handle g).alive ≡ true
      → Recorded f (atomic_once at f handle g)
  unfolding atomic_once
  atomic_once-Recorded at f handle g there h live =
      elim (Bool-cases (is_executed g.transport f.header.src_node f.seq)) [
        | inl done ↦ rw (done, atomic_once) (resend_or-Recorded at f g there done)
        | inr new ↦
            rw (new, atomic_once) (executed-Recorded f (handle g) h (rw (new, atomic_once) at live))
      ]

  verb-Recorded :
      (verb : Verb) (at : Moment Sender) (f : InboundFrame) (g : DataPlaneEngine F Sender)
      → runs_once verb ≡ true
      → HasSession g.transport f.header.src_node
      → (handle_verb verb at f g).alive ≡ true
      → Recorded f (handle_verb verb at f g)
  unfolding handle_verb handle_write handle_write_imm handle_atomic_cas handle_atomic_faa
  verb-Recorded Verb.write at f g r h live =
      let node = f.header.src_node in
      write_once-Recorded f (handle_write f.payload f.ext) g
        (held-Keeps f.ext.mr_handle node g g (write_held f.payload f.ext) (λ h. h)
          (write_held-Keeps node f.payload f.ext) h)
        live
  verb-Recorded Verb.write_imm at f g r h live =
      let node = f.header.src_node in
      write_once-Recorded f (handle_write_imm f.payload f.ext) g
        (held-Keeps f.ext.mr_handle node g g (write_imm_held f.payload f.ext) (λ h. h)
          (write_imm_held-Keeps node f.payload f.ext) h)
        live
  verb-Recorded Verb.atomic_cas at f g r h live =
      let node = f.header.src_node in
      atomic_once-Recorded at f (handle_atomic_cas at node f.payload f.ext) g h
        (held-Keeps f.ext.mr_handle node g _ (cas_held at node f.payload f.ext)
          (error-Keeps at node node 1 f.ext g) (cas_held-Keeps at node f.payload f.ext) h)
        live
  verb-Recorded Verb.atomic_faa at f g r h live =
      let node = f.header.src_node in
      atomic_once-Recorded at f (handle_atomic_faa at node f.payload f.ext) g h
        (held-Keeps f.ext.mr_handle node g _ (faa_held at node f.payload f.ext)
          (error-Keeps at node node 1 f.ext g) (faa_held-Keeps at node f.payload f.ext) h)
        live
  verb-Recorded Verb.read_req at f g r h live = cc r
  verb-Recorded Verb.send at f g r h live = cc r
  verb-Recorded Verb.read_resp at f g r h live = cc r
  verb-Recorded Verb.atomic_cas_resp at f g r h live = cc r
  verb-Recorded Verb.atomic_faa_resp at f g r h live = cc r

  -- Only what goes to the network may differ.
  abbrev pub IsEcho : DataPlaneEngine F Sender → DataPlaneEngine F Sender → Type 0
  IsEcho r q = q ≡ record r { transport = q.transport }

  resend_or-IsEcho :
      (at : Moment Sender) (node : ℕ) (ext : DataExtHeader) (g : DataPlaneEngine F Sender)
      → IsEcho g (resend_or at node ext (λ g. g) g)
  unfolding resend_or reply
  resend_or-IsEcho at node ext g =
      elim (Option-cases (read_cache_get at.first_now g.transport node (node, ext.opaque)).1) [
        | inl missing ↦ rw (missing, resend_or) refl
        | inr (bytes, cached) ↦ rw (cached, resend_or) refl
      ]

  verb-IsEcho :
      (verb : Verb) (at : Moment Sender) (f : InboundFrame) (g : DataPlaneEngine F Sender)
      → runs_once verb ≡ true
      → Recorded f g
      → IsEcho g (handle_verb verb at f g)
  unfolding handle_verb write_once atomic_once
  verb-IsEcho Verb.write at f g r done = rw (done, write_once) refl
  verb-IsEcho Verb.write_imm at f g r done = rw (done, write_once) refl
  verb-IsEcho Verb.atomic_cas at f g r done =
      rw (done, atomic_once) (resend_or-IsEcho at f.header.src_node f.ext g)
  verb-IsEcho Verb.atomic_faa at f g r done =
      rw (done, atomic_once) (resend_or-IsEcho at f.header.src_node f.ext g)
  verb-IsEcho Verb.read_req at f g r done = cc r
  verb-IsEcho Verb.send at f g r done = cc r
  verb-IsEcho Verb.read_resp at f g r done = cc r
  verb-IsEcho Verb.atomic_cas_resp at f g r done = cc r
  verb-IsEcho Verb.atomic_faa_resp at f g r done = cc r

  -- A write or atomic request of a node with which there is a session has its effect once: when
  -- the handling of its frame did not panic, handling the frame again, with the same number,
  -- changes nothing of the engine but the transport, through which a cached response may go out
  -- again.
  pub handle_verb_frame-Once :
      (at at' : Moment Sender) (f : InboundFrame) (g : DataPlaneEngine F Sender)
      → runs_once f.ext.verb ≡ true
      → HasSession g.transport f.header.src_node
      → (handle_verb_frame at f g).alive ≡ true
      → let once = handle_verb_frame at f g in
        let twice = handle_verb_frame at' f once in
        twice ≡ record once { transport = twice.transport }
  unfolding handle_verb_frame
  handle_verb_frame-Once at at' f g r h live =
      verb-IsEcho f.ext.verb at' f (handle_verb_frame at f g) r
        (verb-Recorded f.ext.verb at f g r h live)
