-- ===== src/Transport/Manager/AtMostOnce.antt =====
-- Runs of data frames through the manager of crates/ub-transport/src/manager.rs, and how often
-- they go up.
use unibus_toy.Base.{
  ℕ, suc, ◌+◌, ◌*◌, ◌^◌, ◌≤◌, ◌<◌, ◌≡◌, refl, sym, ap, ◌∙◌, inl, inr, Bool, true, false, not, ◌&&◌,
  ◌||◌, some, List, [], ◌∷◌, arith, ◌==◌, Bool-cases, length, All,
}
use unibus_toy.Transport.Dedup.{DedupWindow, check, is_seen}
use unibus_toy.Transport.Dedup.Invariant.{IsValid}
use unibus_toy.Transport.Session.State.{active}
use unibus_toy.Transport.Session.Deliveries.{is_deliver, window_after, action_of, arrive, Arrived}
use unibus_toy.Transport.Manager.State.{TransportManager, InboundFrame, session_key}
use unibus_toy.Transport.Manager.Handlers.{
  wants_answer, is_duplicate, handler_key, handle_data_frame,
}
use unibus_toy.Transport.Manager.Effects.{delivered_by, watch}
use unibus_toy.Transport.Manager.Delivery.{
  Arrival, handle_all, frame_of, times_delivered, times_delivered-append, delivered_by-count,
  delivered_new, IsOneWay, from_peer, pass_by,
}

-- What may happen to the count of the number `q`: nothing, or one delivery that makes it seen.
pub data Counted (before after : DedupWindow) (q old now : ℕ) : Type 0 where
  not_delivered : now ≡ old → Counted before after q old now
  delivered_first :
      now ≡ old + 1
      → is_seen before q ≡ false
      → is_seen after q ≡ true
      → Counted before after q old now

-- The count of `q` in what an arrival with the number `n` sends up.
count_here :
    (r q : ℕ) (w v : DedupWindow) (x : InboundFrame) (old now : ℕ)
    → IsValid w
    → 0 < w.window_size
    → Arrived w v x.seq
    → x.header.src_node ≡ r
    → ((x.header.src_node == r) && ((x.seq == q) && wants_answer x.ext.verb)) ≡ false
    → now ≡ old + times_delivered r q (delivered_by (action_of (check w x.seq)) x)
    → Counted w v q old now
unfolding delivered_by times_delivered
count_here r q w v x old now valid open_ a here one_way counts =
    let b = action_of (check w x.seq) in
    let from_r : (x.header.src_node == r) ≡ true = ground arith in
    elim (Bool-cases (x.seq == q)) [
      | inr other ↦
          not_delivered (counts ∙ rw (delivered_by-count r q b x (ground arith)) (omega arith))
      | inl this ↦ elim (Bool-cases (is_deliver b)) [
        | inr kept ↦
            let no_answer : wants_answer x.ext.verb ≡ false = ground arith in
            let nothing : (is_deliver b || (is_duplicate b && wants_answer x.ext.verb)) ≡ false =
              ground arith in
            not_delivered (counts ∙ rw nothing (omega arith))
        | inl up ↦
            let (fresh, inside) = delivered_new w x.seq valid open_ up in
            let e : x.seq ≡ q = ground arith in
            delivered_first (counts ∙ rw (up, from_r, this) (omega arith)) (ground (arith, fresh))
              (a.seen q ∙ ground (arith, inside))
      ]
    ]

module _ {F Sender : Type 0} where
  -- The session with `r` is active and has the window `w`, which is valid, is not empty, and has
  -- room for `k` arrivals.
  pub record IsLive (r k : ℕ) (w : DedupWindow) (m : TransportManager F Sender) : Type 0 where
    pub there : watch m (handler_key m r) ≡ some (active, w)
    pub valid : IsValid w
    pub not_empty : 0 < w.window_size
    pub room : w.next_expected + 1024 * k < 2 ^ 64

  record Stepped (r q k : ℕ) (w : DedupWindow) (m n : TransportManager F Sender) : Type 0 where
    window : DedupWindow
    live : IsLive r k window n
    kept : is_seen w q ≡ true → is_seen window q ≡ true
    counted : Counted w window q (times_delivered r q m.inbound) (times_delivered r q n.inbound)

  step_by :
      (accepts : Sender → Bool) (r q k : ℕ) (w : DedupWindow) (m : TransportManager F Sender)
      (a : Arrival)
      → (q == 0) ≡ false
      → IsOneWay r q a
      → IsLive r (suc k) w m
      → Stepped r q k w m (handle_data_frame accepts m a.header a.ext a.payload)
  step_by accepts r q k w m a real one_way live =
      let n = a.header.stream_seq in
      elim (Bool-cases ((a.header.src_node == r) && not (n == 0))) [
        | inl ours ↦
            let e : a.header.src_node ≡ r = ground arith in
            let t = from_peer accepts m a w (ground arith) (rw e live.there) in
            let v = window_after w n (check w n) in
            let moved : Arrived w v n =
              arrive w n live.valid (omega (arith, live.room, live.valid.shaped.size)) in
            record {
              window = v;
              live = record {
                there = rw (t.local, t.epochs, sym e) t.here;
                valid = moved.valid;
                not_empty = omega (arith, moved.size, live.not_empty);
                room = omega (arith, moved.upto, live.room, live.valid.shaped.size);
              };
              kept = λ h. moved.seen q ∙ rw h refl;
              counted =
                  count_here r q w v (frame_of a) _ _ live.valid live.not_empty moved e one_way (
                    ap (times_delivered r q) t.inbound
                    ∙ times_delivered-append r q m.inbound
                        (delivered_by (action_of (check w n)) (frame_of a)));
            }
        | inr theirs ↦
            let p = pass_by accepts r q m a real theirs in
            record {
              window = w;
              live = record {
                there = rw p.key (p.same ∙ live.there);
                valid = live.valid;
                not_empty = live.not_empty;
                room = omega (arith, live.room);
              };
              kept = λ h. h;
              counted = not_delivered p.count;
            }
      ]

  seen_stays_out :
      (accepts : Sender → Bool) (r q : ℕ) (w : DedupWindow) (m : TransportManager F Sender)
      (arrivals : List Arrival)
      → (q == 0) ≡ false
      → All (IsOneWay r q) arrivals
      → IsLive r (length arrivals) w m
      → is_seen w q ≡ true
      → times_delivered r q (handle_all accepts m arrivals).inbound ≡ times_delivered r q m.inbound
  unfolding handle_all
  seen_stays_out accepts r q w m [] real one_way live seen = refl
  seen_stays_out accepts r q w m (a ∷ rest) real one_way live seen =
      let s = step_by accepts r q (length rest) w m a real one_way.0 live in
      let later = seen_stays_out accepts r q s.window _ rest real one_way.1 s.live (s.kept seen) in
      elim s.counted [
        | not_delivered e ↦ later ∙ e
        | delivered_first e new now ↦ absurd (ground arith)
      ]

  -- On a manager whose session with the peer `r` is active, with a valid dedup window that is
  -- not empty and has room for the run, any run of data frames, from whatever peers, in whatever
  -- order and however often repeated, gets the frame `q` of that peer to the layer above at most
  -- one more time, when `q` is not 0 and no arrival that carries it is a read or atomic request.
  pub delivered_at_most_once :
      (accepts : Sender → Bool) (r q : ℕ) (w : DedupWindow) (m : TransportManager F Sender)
      (arrivals : List Arrival)
      → (q == 0) ≡ false
      → All (IsOneWay r q) arrivals
      → IsLive r (length arrivals) w m
      → times_delivered r q (handle_all accepts m arrivals).inbound
        ≤ times_delivered r q m.inbound + 1
  unfolding handle_all
  delivered_at_most_once accepts r q w m [] real one_way live = omega arith
  delivered_at_most_once accepts r q w m (a ∷ rest) real one_way live =
      let s = step_by accepts r q (length rest) w m a real one_way.0 live in
      elim s.counted [
        | not_delivered e ↦
            let later = delivered_at_most_once accepts r q s.window _ rest real one_way.1 s.live in
            omega (arith, later, e)
        | delivered_first e new now ↦
            let later = seen_stays_out accepts r q s.window _ rest real one_way.1 s.live now in
            omega (arith, later, e)
      ]
