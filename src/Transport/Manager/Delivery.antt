-- ===== src/Transport/Manager/Delivery.antt =====
-- Data frames through the manager of crates/ub-transport/src/manager.rs: those of one peer, and
-- those that pass its session by.
use unibus_toy.Base.{
  ℕ, ◌+◌, ◌<◌, ◌≡◌, refl, sym, ap, ◌∙◌, ◌⊎◌, inl, inr, Bool, true, false, not, ◌&&◌, ◌||◌, some,
  List, [], ◌∷◌, ◌++◌, arith, ◌==◌, if◌then◌else◌, Bool-cases, Option-cases,
}
use unibus_toy.Base.Assoc.{number_key, lookup}
use unibus_toy.Wire.Frame.{FrameHeader, DataExtHeader}
use unibus_toy.Transport.Dedup.{DedupWindow, check, is_seen}
use unibus_toy.Transport.Dedup.Invariant.{IsValid}
use unibus_toy.Transport.Dedup.Refinement.{check-is_seen, in_window}
use unibus_toy.Transport.Session.State.{SessionState, ReceiveAction, active, dead}
use unibus_toy.Transport.Session.Deliveries.{is_deliver, window_after, action_of}
use unibus_toy.Transport.Manager.State.{TransportManager, InboundFrame, session_key}
use unibus_toy.Transport.Manager.Handlers.{
  wants_answer, is_duplicate, handler_key, deliver_up, handle_data_frame, receive_on,
}
use unibus_toy.Transport.Manager.Effects.{Touched, delivered_by, receive_on-Touched, watch}

pub record Arrival : Type 0 where
  pub header : FrameHeader
  pub ext : DataExtHeader
  pub payload : List ℕ

abbrev pub frame_of : Arrival → InboundFrame
frame_of a = record {
  header = a.header;
  ext = a.ext;
  payload = a.payload;
  seq = a.header.stream_seq;
}

-- How often the frame `q` of the peer `r` is among those that went up.
unfoldable pub times_delivered : ℕ → ℕ → List InboundFrame → ℕ
times_delivered r q [] = 0
times_delivered r q (x ∷ xs) =
    (if (x.header.src_node == r) && (x.seq == q) then 1 else 0) + times_delivered r q xs

pub times_delivered-append :
    (r q : ℕ) (xs ys : List InboundFrame)
    → times_delivered r q (xs ++ ys) ≡ times_delivered r q xs + times_delivered r q ys
unfolding times_delivered
times_delivered-append r q [] ys = omega arith
times_delivered-append r q (x ∷ xs) ys = omega (arith, times_delivered-append r q xs ys)

-- An arrival is not the frame `q` of the peer `r` with a verb whose repetition goes up again.
abbrev pub IsOneWay : ℕ → ℕ → Arrival → Type 0
IsOneWay r q a =
    ((a.header.src_node == r) && ((a.header.stream_seq == q) && wants_answer a.ext.verb)) ≡ false

pub delivered_by-count :
    (r q : ℕ) (b : ReceiveAction) (x : InboundFrame)
    → ((x.header.src_node == r) && (x.seq == q)) ≡ false
    → times_delivered r q (delivered_by b x) ≡ 0
unfolding delivered_by times_delivered
delivered_by-count r q b x other =
    elim (Bool-cases (is_deliver b || (is_duplicate b && wants_answer x.ext.verb))) [
      | inl up ↦ rw (up, other) (omega arith)
      | inr kept ↦ rw kept refl
    ]

-- A window lets a number through only if it is new and lies in the window.
pub delivered_new :
    (w : DedupWindow) (n : ℕ)
    → IsValid w
    → 0 < w.window_size
    → is_deliver (action_of (check w n)) ≡ true
    → (is_seen w n ≡ false) × (in_window w n ≡ true)
unfolding action_of
delivered_new w n h open_ up =
    let e : check w n ≡ _ = check-is_seen w n h in
    let first : (if is_seen w n then false else n == w.next_expected) ≡ true = ground (arith, e) in
    (ground arith, ground arith)

pub state_cases : (t : SessionState) → (t ≡ active) ⊎ (t ≡ dead)
state_cases active = inl refl
state_cases dead = inr refl

module _ {F Sender : Type 0} where
  unfoldable pub handle_all :
      (Sender → Bool) → TransportManager F Sender → List Arrival → TransportManager F Sender
  handle_all accepts m [] = m
  handle_all accepts m (a ∷ rest) =
      handle_all accepts (handle_data_frame accepts m a.header a.ext a.payload) rest

  -- A numbered frame of a peer whose session is active.
  pub from_peer :
      (accepts : Sender → Bool) (m : TransportManager F Sender) (a : Arrival) (w : DedupWindow)
      → (a.header.stream_seq == 0) ≡ false
      → watch m (handler_key m a.header.src_node) ≡ some (active, w)
      → Touched
          (handler_key m a.header.src_node)
          (active, window_after w a.header.stream_seq (check w a.header.stream_seq))
          (delivered_by (action_of (check w a.header.stream_seq)) (frame_of a))
          m
          (handle_data_frame accepts m a.header a.ext a.payload)
  unfolding handle_data_frame
  from_peer accepts m a w numbered there =
      let key = handler_key m a.header.src_node in
      elim (Option-cases (lookup key m.sessions)) [
        | inl missing ↦ absurd (cc (rw missing at there))
        | inr (s, found) ↦
            let shows : (s.state, s.dedup) ≡ (active, w) = cc (rw found at there) in
            let live : s.state ≡ active = ap (λ (v : SessionState × DedupWindow). v.0) shows in
            let window : s.dedup ≡ w = ap (λ (v : SessionState × DedupWindow). v.1) shows in
            rw (numbered, found, handle_data_frame, sym window)
              (receive_on-Touched accepts (frame_of a) key s m live)
      ]

  -- Frames of other peers, and frames without a number, leave the session with `r`, and do not
  -- count.
  pub record Passed (r q : ℕ) (m n : TransportManager F Sender) : Type 0 where
    pub key : handler_key n r ≡ handler_key m r
    pub same : watch n (handler_key m r) ≡ watch m (handler_key m r)
    pub count : times_delivered r q n.inbound ≡ times_delivered r q m.inbound

  Passed-refl : (r q : ℕ) (m : TransportManager F Sender) → Passed r q m m
  Passed-refl r q m = record { key = refl; same = refl; count = refl }

  deliver_up-Passed :
      (r q : ℕ) (m : TransportManager F Sender) (x : InboundFrame)
      → ((x.header.src_node == r) && (x.seq == q)) ≡ false
      → Passed r q m (deliver_up x m)
  unfolding deliver_up times_delivered
  deliver_up-Passed r q m x other = record {
    key = refl;
    same = refl;
    count = times_delivered-append r q m.inbound (x ∷ []) ∙ rw other (omega arith);
  }

  Touched-Passed :
      (r q : ℕ) (m n : TransportManager F Sender) (x : InboundFrame) (b : ReceiveAction)
      (v : SessionState × DedupWindow)
      → (x.header.src_node == r) ≡ false
      → Touched (handler_key m x.header.src_node) v (delivered_by b x) m n
      → Passed r q m n
  Touched-Passed r q m n x b v other t = record {
    key = rw (t.local, t.epochs) refl;
    same = t.others (handler_key m r) (rw other (ground arith));
    count =
        ap (times_delivered r q) t.inbound
        ∙ times_delivered-append r q m.inbound (delivered_by b x)
        ∙ rw (delivered_by-count r q b x (rw other refl)) (omega arith);
  }

  pub pass_by :
      (accepts : Sender → Bool) (r q : ℕ) (m : TransportManager F Sender) (a : Arrival)
      → (q == 0) ≡ false
      → ((a.header.src_node == r) && not (a.header.stream_seq == 0)) ≡ false
      → Passed r q m (handle_data_frame accepts m a.header a.ext a.payload)
  unfolding handle_data_frame receive_on
  pass_by accepts r q m a real other =
      let key = handler_key m a.header.src_node in
      let no_count : ((a.header.src_node == r) && (a.header.stream_seq == q)) ≡ false =
        ground arith in
      elim (Bool-cases (a.header.stream_seq == 0)) [
        | inl zero_ ↦ rw (zero_, handle_data_frame) (deliver_up-Passed r q m (frame_of a) no_count)
        | inr numbered ↦ elim (Option-cases (lookup key m.sessions)) [
          | inl missing ↦
              rw (numbered, missing, handle_data_frame)
                (deliver_up-Passed r q m (frame_of a) no_count)
          | inr (s, found) ↦ elim (state_cases s.state) [
            | inl live ↦
                rw (numbered, found, handle_data_frame)
                  (Touched-Passed r q m _ (frame_of a) _ _ (ground arith)
                    (receive_on-Touched accepts (frame_of a) key s m live))
            | inr over ↦
                rw (numbered, found, handle_data_frame, over, receive_on) (Passed-refl r q m)
          ]
        ]
      ]
