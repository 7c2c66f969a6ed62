-- ===== src/Core/Jetty/Order.antt =====
-- What becomes of the requests that crates/ub-core/src/jetty.rs accepts.
use unibus_toy.Base.{
  ℕ, ◌≡◌, refl, sym, ◌∙◌, inl, inr, true, false, Option, none, some, List, [], ◌∷◌, ◌++◌, leb,
  if◌then◌else◌, length, map, Bool-cases, List-cases,
}
use mathlib.Core.List.{append_assoc, append-nil}
use unibus_toy.Core.Error.{Result, ok, err, panicked}
use unibus_toy.Core.Verb
use unibus_toy.Core.Jetty.{
  Jetty, WorkRequest, RecvBuffer, Cqe, post_recv, post_send, pop_send, pop_recv, push_cqe, poll_cqe,
  close, flush_jfs, flush_jfr, flushed_cqe,
}

abbrev pub send_flushed : ℕ → WorkRequest → Cqe
send_flushed id wr = flushed_cqe id wr.wr_id wr.verb

abbrev pub recv_flushed : ℕ → RecvBuffer → Cqe
recv_flushed id buffer = flushed_cqe id buffer.wr_id Verb.send

flush_jfs-map :
    (id : ℕ) (jfs : List WorkRequest) (jfc : List Cqe)
    → flush_jfs id jfs jfc ≡ jfc ++ map (send_flushed id) jfs
unfolding flush_jfs
flush_jfs-map id [] jfc = sym (append-nil _)
flush_jfs-map id (wr ∷ jfs) jfc =
    rw (flush_jfs-map id jfs)
      (append_assoc jfc (send_flushed id wr ∷ []) (map (send_flushed id) jfs))

flush_jfr-map :
    (id : ℕ) (jfr : List RecvBuffer) (jfc : List Cqe)
    → flush_jfr id jfr jfc ≡ jfc ++ map (recv_flushed id) jfr
unfolding flush_jfr
flush_jfr-map id [] jfc = sym (append-nil _)
flush_jfr-map id (b ∷ jfr) jfc =
    rw (flush_jfr-map id jfr)
      (append_assoc jfc (recv_flushed id b ∷ []) (map (recv_flushed id) jfr))

pub close_lem :
    (j : Jetty)
    → j.closed ≡ false
    → close j ≡ record j {
      closed = true;
      jfs = [];
      jfr = [];
      jfc = j.jfc ++ (map (send_flushed j.handle) j.jfs ++ map (recv_flushed j.handle) j.jfr);
    }
unfolding close
close_lem j h = rw (
  h,
  flush_jfs-map j.handle j.jfs j.jfc,
  flush_jfr-map j.handle j.jfr (j.jfc ++ map (send_flushed j.handle) j.jfs),
  append_assoc j.jfc,
)

pub data JettyCall : Type 0 where
  posts_send : WorkRequest → JettyCall
  posts_recv : List ℕ → ℕ → JettyCall
  pushes_cqe : Cqe → JettyCall
  pops_send pops_recv polls_cqe closes : JettyCall

-- A jetty with what went into each of its queues and what came out, oldest first. A close takes
-- out what waits to be sent or received, and puts its completions in.
pub record History : Type 0 where
  pub jetty : Jetty
  pub sends_in : List WorkRequest
  pub sends_out : List WorkRequest
  pub recvs_in : List RecvBuffer
  pub recvs_out : List RecvBuffer
  pub cqes_in : List Cqe
  pub cqes_out : List Cqe

abbrev pub if_ok {ℓ} : {A : Type ℓ} → Result (Unit {0}) → A → List A
if_ok (ok u) a = a ∷ []
if_ok (err e) a = []
if_ok panicked a = []

abbrev pub if_some {ℓ} : {A : Type ℓ} → Option A → List A
if_some none = []
if_some (some a) = a ∷ []

abbrev pub flushed_by_close : Jetty → List Cqe
flushed_by_close j = map (send_flushed j.handle) j.jfs ++ map (recv_flushed j.handle) j.jfr

abbrev quiet : Jetty → History
quiet j = record {
  jetty = j;
  sends_in = [];
  sends_out = [];
  recvs_in = [];
  recvs_out = [];
  cqes_in = [];
  cqes_out = [];
}

-- One call on a jetty, with what it moves.
unfoldable pub perform : JettyCall → Jetty → History
perform (posts_send wr) j = let r = post_send wr j in record (quiet r.1) { sends_in = if_ok r.0 wr }
perform (posts_recv buf wr_id) j =
    let r = post_recv buf wr_id j in
    record (quiet r.1) { recvs_in = if_ok r.0 (record { buf = buf; wr_id = wr_id }) }
perform (pushes_cqe cqe) j =
    let r = push_cqe cqe j in record (quiet r.1) { cqes_in = if_ok r.0 cqe }
perform pops_send j = let r = pop_send j in record (quiet r.1) { sends_out = if_some r.0 }
perform pops_recv j = let r = pop_recv j in record (quiet r.1) { recvs_out = if_some r.0 }
perform polls_cqe j = let r = poll_cqe j in record (quiet r.1) { cqes_out = if_some r.0 }
perform closes j = if j.closed then quiet j else record (quiet (close j)) {
  sends_out = j.jfs;
  recvs_out = j.jfr;
  cqes_in = flushed_by_close j;
}

unfoldable pub extend : History → History → History
extend h m = record {
  jetty = m.jetty;
  sends_in = h.sends_in ++ m.sends_in;
  sends_out = h.sends_out ++ m.sends_out;
  recvs_in = h.recvs_in ++ m.recvs_in;
  recvs_out = h.recvs_out ++ m.recvs_out;
  cqes_in = h.cqes_in ++ m.cqes_in;
  cqes_out = h.cqes_out ++ m.cqes_out;
}

unfoldable pub run : List JettyCall → History → History
run [] h = h
run (c ∷ cs) h = run cs (extend h (perform c h.jetty))

-- Each queue holds what went in and has not come out, in order.
pub record IsOrdered (h : History) : Type 0 where
  pub sends : h.sends_in ≡ h.sends_out ++ h.jetty.jfs
  pub recvs : h.recvs_in ≡ h.recvs_out ++ h.jetty.jfr
  pub cqes : h.cqes_in ≡ h.cqes_out ++ h.jetty.jfc

-- What a call puts in goes behind the queue, and what it takes out is the queue's front.
record Moves (j : Jetty) (m : History) : Type 0 where
  sends : j.jfs ++ m.sends_in ≡ m.sends_out ++ m.jetty.jfs
  recvs : j.jfr ++ m.recvs_in ≡ m.recvs_out ++ m.jetty.jfr
  cqes : j.jfc ++ m.cqes_in ≡ m.cqes_out ++ m.jetty.jfc

carry {ℓ} :
    {A : Type ℓ} (ins outs queue more gone queue' : List A)
    → ins ≡ outs ++ queue
    → queue ++ more ≡ gone ++ queue'
    → ins ++ more ≡ (outs ++ gone) ++ queue'
carry ins outs queue more gone queue' h e =
    rw h (append_assoc outs queue more ∙ rw e (sym (append_assoc outs gone queue')))

quiet-Moves : (j : Jetty) → Moves j (quiet j)
quiet-Moves j = record {
  sends = append-nil j.jfs;
  recvs = append-nil j.jfr;
  cqes = append-nil j.jfc;
}

perform-Moves : (c : JettyCall) (j : Jetty) → Moves j (perform c j)
unfolding perform post_send post_recv push_cqe pop_send pop_recv poll_cqe
perform-Moves (posts_send wr) j = elim (Bool-cases (leb j.jfc_high_watermark (length j.jfc))) [
  | inl held ↦ rw (held, post_send) (quiet-Moves j)
  | inr clear ↦ elim (Bool-cases (leb j.jfs_depth (length j.jfs))) [
    | inl full ↦ rw (clear, full, post_send) (quiet-Moves j)
    | inr room ↦
        rw (clear, room, post_send)
          (record { sends = refl; recvs = append-nil j.jfr; cqes = append-nil j.jfc })
  ]
]
perform-Moves (posts_recv buf wr_id) j = elim (Bool-cases (leb j.jfr_depth (length j.jfr))) [
  | inl full ↦ rw (full, post_recv) (quiet-Moves j)
  | inr room ↦
      rw (room, post_recv)
        (record { sends = append-nil j.jfs; recvs = refl; cqes = append-nil j.jfc })
]
perform-Moves (pushes_cqe cqe) j = elim (Bool-cases (leb j.jfc_depth (length j.jfc))) [
  | inl full ↦ rw (full, push_cqe) (quiet-Moves j)
  | inr room ↦
      rw (room, push_cqe)
        (record { sends = append-nil j.jfs; recvs = append-nil j.jfr; cqes = refl })
]
perform-Moves pops_send j = elim (List-cases j.jfs) [
  | inl empty ↦ simp (empty, pop_send) (quiet-Moves j)
  | inr (wr, rest, e) ↦
      simp (e, pop_send)
        (record { sends = append-nil j.jfs ∙ e; recvs = append-nil j.jfr; cqes = append-nil j.jfc })
]
perform-Moves pops_recv j = elim (List-cases j.jfr) [
  | inl empty ↦ simp (empty, pop_recv) (quiet-Moves j)
  | inr (b, rest, e) ↦
      simp (e, pop_recv)
        (record { sends = append-nil j.jfs; recvs = append-nil j.jfr ∙ e; cqes = append-nil j.jfc })
]
perform-Moves polls_cqe j = elim (List-cases j.jfc) [
  | inl empty ↦ simp (empty, poll_cqe) (quiet-Moves j)
  | inr (cqe, rest, e) ↦
      simp (e, poll_cqe)
        (record { sends = append-nil j.jfs; recvs = append-nil j.jfr; cqes = append-nil j.jfc ∙ e })
]
perform-Moves closes j = elim (Bool-cases j.closed) [
  | inl done ↦ simp done (quiet-Moves j)
  | inr going ↦ simp (going, close_lem j going) (record { sends = refl; recvs = refl; cqes = refl })
]

pub extend-IsOrdered :
    (h : History) (c : JettyCall) → IsOrdered h → IsOrdered (extend h (perform c h.jetty))
unfolding extend
extend-IsOrdered h c v =
    let m = perform c h.jetty in
    let moves = perform-Moves c h.jetty in
    record {
      sends =
          carry h.sends_in h.sends_out h.jetty.jfs m.sends_in m.sends_out m.jetty.jfs v.sends
            moves.sends;
      recvs =
          carry h.recvs_in h.recvs_out h.jetty.jfr m.recvs_in m.recvs_out m.jetty.jfr v.recvs
            moves.recvs;
      cqes =
          carry h.cqes_in h.cqes_out h.jetty.jfc m.cqes_in m.cqes_out m.jetty.jfc v.cqes moves.cqes;
    }

-- If each of the three queues of a jetty holds what went in and has not come out, oldest first,
-- that still holds after any run of posts, pops, polls and closes, where a close takes all
-- waiting requests out and puts in one flushed completion for each send and then each receive
-- buffer: nothing is lost, doubled or reordered.
pub run-IsOrdered : (cs : List JettyCall) (h : History) → IsOrdered h → IsOrdered (run cs h)
unfolding run
run-IsOrdered [] h v = v
run-IsOrdered (c ∷ cs) h v =
    run-IsOrdered cs (extend h (perform c h.jetty)) (extend-IsOrdered h c v)
