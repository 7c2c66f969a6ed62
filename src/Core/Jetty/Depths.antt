-- ===== src/Core/Jetty/Depths.antt =====
-- The depths of the queues of crates/ub-core/src/jetty.rs.
use unibus_toy.Base.{
  ℕ, suc, ◌+◌, ◌≤◌, ◌≡◌, refl, ap, inl, inr, false, List, [], ◌∷◌, arith, if◌then◌else◌, length,
  length-append, map, Bool-cases,
}
use unibus_toy.Core.Jetty.{
  Jetty, WorkRequest, Cqe, post_recv, post_send, pop_send, pop_recv, push_cqe, poll_cqe, close,
}
use unibus_toy.Core.Jetty.Order.{
  JettyCall, posts_send, posts_recv, pushes_cqe, pops_send, pops_recv, polls_cqe, closes, History,
  perform, extend, run, close_lem,
}

-- The completions that the queue may hold: its depth, and behind a close one for every request
-- that waited.
abbrev pub jfc_limit : Jetty → ℕ
jfc_limit j = if j.closed then j.jfc_depth + j.jfs_depth + j.jfr_depth else j.jfc_depth

pub record IsWithin (j : Jetty) : Type 0 where
  pub sends : length j.jfs ≤ j.jfs_depth
  pub recvs : length j.jfr ≤ j.jfr_depth
  pub cqes : length j.jfc ≤ jfc_limit j

length-map {ℓ κ} :
    {A : Type ℓ} {B : Type κ} (f : A → B) (xs : List A) → length (map f xs) ≡ length xs
length-map f [] = refl
length-map f (x ∷ xs) = ap suc (length-map f xs)

post_send-IsWithin : (wr : WorkRequest) (j : Jetty) → IsWithin j → IsWithin (post_send wr j).1
unfolding post_send
post_send-IsWithin wr j v = ground (arith, length-append j.jfs (wr ∷ []))

post_recv-IsWithin :
    (buf : List ℕ) (wr_id : ℕ) (j : Jetty) → IsWithin j → IsWithin (post_recv buf wr_id j).1
unfolding post_recv
post_recv-IsWithin buf wr_id j v =
    ground (arith, length-append j.jfr (record { buf = buf; wr_id = wr_id } ∷ []))

push_cqe-IsWithin : (cqe : Cqe) (j : Jetty) → IsWithin j → IsWithin (push_cqe cqe j).1
unfolding push_cqe
push_cqe-IsWithin cqe j v = ground (arith, length-append j.jfc (cqe ∷ []))

pop_send-IsWithin : (j : Jetty) → IsWithin j → IsWithin (pop_send j).1
unfolding pop_send
pop_send-IsWithin j v = ground arith

pop_recv-IsWithin : (j : Jetty) → IsWithin j → IsWithin (pop_recv j).1
unfolding pop_recv
pop_recv-IsWithin j v = ground arith

poll_cqe-IsWithin : (j : Jetty) → IsWithin j → IsWithin (poll_cqe j).1
unfolding poll_cqe
poll_cqe-IsWithin j v = ground arith

close-IsWithin : (j : Jetty) → j.closed ≡ false → IsWithin j → IsWithin (close j)
close-IsWithin j h v =
    let low : length j.jfc ≤ j.jfc_depth = rw h at v.cqes in
    rw (close_lem j h) (record {
      sends = omega arith;
      recvs = omega arith;
      cqes = simp (length-append, length-map) (omega (arith, low, v.sends, v.recvs));
    })

perform-IsWithin : (c : JettyCall) (j : Jetty) → IsWithin j → IsWithin (perform c j).jetty
unfolding perform
perform-IsWithin (posts_send wr) j v = post_send-IsWithin wr j v
perform-IsWithin (posts_recv buf wr_id) j v = post_recv-IsWithin buf wr_id j v
perform-IsWithin (pushes_cqe cqe) j v = push_cqe-IsWithin cqe j v
perform-IsWithin pops_send j v = pop_send-IsWithin j v
perform-IsWithin pops_recv j v = pop_recv-IsWithin j v
perform-IsWithin polls_cqe j v = poll_cqe-IsWithin j v
perform-IsWithin closes j v = elim (Bool-cases j.closed) [
  | inl done ↦ simp done v
  | inr going ↦ simp going (close-IsWithin j going v)
]

-- If the sends and the receive buffers of a jetty are within their depths, and its completions
-- within theirs or, once it is closed, within the three depths together, that still holds after
-- any run of calls on it.
pub run-IsWithin :
    (cs : List JettyCall) (h : History) → IsWithin h.jetty → IsWithin (run cs h).jetty
unfolding run extend
run-IsWithin [] h v = v
run-IsWithin (c ∷ cs) h v =
    run-IsWithin cs (extend h (perform c h.jetty)) (perform-IsWithin c h.jetty v)
