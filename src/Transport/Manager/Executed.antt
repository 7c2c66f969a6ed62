-- ===== src/Transport/Manager/Executed.antt =====
-- The records of executed frames through the manager of crates/ub-transport/src/manager.rs.
use unibus_toy.Base.{
  ℕ, ◌≡◌, refl, sym, ◌∙◌, inl, inr, Bool, true, some, List, Bool-cases, Option-cases,
}
use unibus_toy.Base.Assoc.{number_key, lookup, lookup-insert, same_refl}
use unibus_toy.Transport.Session.State.{ReliableSession}
use unibus_toy.Transport.Session.Receiving
use unibus_toy.Transport.Session.Executed
use unibus_toy.Transport.ReadCache
use unibus_toy.Transport.ReadCache.{CacheKey}
use unibus_toy.Transport.Manager.State.{TransportManager, session_key, key_of}
use unibus_toy.Transport.Manager.Send.{find_session, store, send_frame_to_peer}
use unibus_toy.Transport.Manager.Operations.{
  on_session, mark_executed, is_executed, read_cache_insert, read_cache_get,
}

module _ {F Sender : Type 0} where
  -- There is a session of the current epoch with a node.
  pub record HasSession (m : TransportManager F Sender) (node : ℕ) : Type 0 where
    pub epoch : ℕ
    pub session : ReliableSession F
    pub known : lookup node m.peer_epochs ≡ some epoch
    pub there : lookup (key_of m node epoch) m.sessions ≡ some session

  find_session-HasSession :
      (m : TransportManager F Sender) (node : ℕ) (h : HasSession m node)
      → find_session m node ≡ some (key_of m node h.epoch, h.session)
  unfolding find_session
  find_session-HasSession m node h = rw (h.known, h.there, find_session) refl

  is_executed-HasSession :
      (m : TransportManager F Sender) (node seq : ℕ) (h : HasSession m node)
      → is_executed m node seq ≡ Receiving.is_executed h.session seq
  unfolding is_executed
  is_executed-HasSession m node seq h = rw (find_session-HasSession m node h, is_executed) refl

  changed :
      (change : ReliableSession F → ReliableSession F) (m : TransportManager F Sender) (node : ℕ)
      (h : HasSession m node)
      → on_session change m node ≡ store (key_of m node h.epoch) (change h.session) m
  unfolding on_session
  changed change m node h = rw (find_session-HasSession m node h, on_session) refl

  stored :
      (change : ReliableSession F → ReliableSession F) (m : TransportManager F Sender) (node : ℕ)
      (h : HasSession m node)
      → HasSession (store (key_of m node h.epoch) (change h.session) m) node
  unfolding store
  stored change m node h =
      let key = key_of m node h.epoch in
      record {
        epoch = h.epoch;
        session = change h.session;
        known = h.known;
        there = rw (lookup-insert key key (change h.session) m.sessions, same_refl key) refl;
      }

  pub read_cache_insert-HasSession :
      (now later : ℕ) (m : TransportManager F Sender) (node : ℕ) (key : CacheKey) (bytes : List ℕ)
      → HasSession m node
      → HasSession (read_cache_insert now later m node key bytes) node
  unfolding read_cache_insert
  read_cache_insert-HasSession now later m node key bytes h =
      let change : ReliableSession F → ReliableSession F =
        λ s. record s { read_cache = ReadCache.insert now later s.read_cache key bytes } in
      rw (changed change m node h) (stored change m node h)

  pub send_frame-HasSession :
      (accepts : Sender → Bool) (m : TransportManager F Sender) (to node : ℕ) (bytes : List ℕ)
      → HasSession m node
      → HasSession (send_frame_to_peer accepts m to bytes) node
  unfolding send_frame_to_peer
  send_frame-HasSession accepts m to node bytes h = elim (Option-cases (lookup to m.peer_senders)) [
    | inl missing ↦ rw (missing, send_frame_to_peer) h
    | inr (sender, found) ↦ elim (Bool-cases (accepts sender)) [
      | inl taken ↦
          rw (found, taken, send_frame_to_peer)
            (record { epoch = h.epoch; session = h.session; known = h.known; there = h.there })
      | inr full ↦ rw (found, full, send_frame_to_peer) h
    ]
  ]

  pub is_executed-mark_executed :
      (m : TransportManager F Sender) (node seq : ℕ)
      → HasSession m node
      → is_executed (mark_executed m node seq) node seq ≡ true
  unfolding mark_executed stored Receiving.mark_executed
  is_executed-mark_executed m node seq h =
      let change : ReliableSession F → ReliableSession F = Receiving.mark_executed seq in
      let later = stored change m node h in
      rw (changed change m node h) (
        is_executed-HasSession (store (key_of m node h.epoch) (change h.session) m) node seq later
        ∙ Executed.is_executed-mark_executed seq h.session)

  pub is_executed-send_frame :
      (accepts : Sender → Bool) (m : TransportManager F Sender) (to node seq : ℕ) (bytes : List ℕ)
      → is_executed (send_frame_to_peer accepts m to bytes) node seq ≡ is_executed m node seq
  unfolding send_frame_to_peer is_executed find_session
  is_executed-send_frame accepts m to node seq bytes =
      elim (Option-cases (lookup to m.peer_senders)) [
        | inl missing ↦ rw (missing, send_frame_to_peer) refl
        | inr (sender, found) ↦ elim (Bool-cases (accepts sender)) [
          | inl taken ↦ rw (found, taken, send_frame_to_peer) refl
          | inr full ↦ rw (found, full, send_frame_to_peer) refl
        ]
      ]

  pub is_executed-read_cache_get :
      (now : ℕ) (m : TransportManager F Sender) (node seq : ℕ) (key : CacheKey)
      → HasSession m node
      → is_executed (read_cache_get now m node key).0 node seq ≡ is_executed m node seq
  unfolding read_cache_get stored Receiving.is_executed
  is_executed-read_cache_get now m node seq key h =
      let change : ReliableSession F → ReliableSession F =
        λ s. record s { read_cache = (ReadCache.get now s.read_cache key).0 } in
      let later = stored change m node h in
      let got : (read_cache_get now m node key).0
          ≡ store (key_of m node h.epoch) (change h.session) m =
        rw (find_session-HasSession m node h, read_cache_get) refl in
      rw got (
        is_executed-HasSession (store (key_of m node h.epoch) (change h.session) m) node seq later
        ∙ sym (is_executed-HasSession m node seq h))
