-- ===== src/Transport/Manager/Operations.antt =====
-- crates/ub-transport/src/manager.rs: the other operations that the layers above call.
use unibus_toy.Base.{
  ℕ, ◌+◌, ◌%◌, ◌^◌, Bool, false, not, ◌&&◌, Option, none, some, List, [], ◌∷◌, ◌++◌, leb, ◌==◌,
  if◌then◌else◌,
}
use unibus_toy.Core.Error.{Result, ok, err, internal, session_exists}
use unibus_toy.Base.Assoc.{
  number_key, lookup, insert as map_insert, remove as map_remove, contains_key,
}
use unibus_toy.Transport.ReadCache
use unibus_toy.Transport.ReadCache.{CacheKey}
use unibus_toy.Transport.Session.State.{
  FloatOps, SessionKey, ReliableSession, RetransmitEntry, kill, new,
}
use unibus_toy.Transport.Session.Sending
use unibus_toy.Transport.Session.Sending.{assign_seq, consume_credit}
use unibus_toy.Transport.Session.Receiving
use unibus_toy.Transport.Session.Receiving.{should_send_ack}
use unibus_toy.Transport.Manager.State.{TransportManager, session_key, key_of}
use unibus_toy.Transport.Manager.Send.{find_session, store, send_credit_frame}

module _ {F : Type 0} where
  -- The sessions with a node, of whatever epoch: those that stay, and the entries of the others.
  unfoldable pub sessions_without :
      ℕ → List (SessionKey × ReliableSession F) → List (SessionKey × ReliableSession F)
  sessions_without node_id [] = []
  sessions_without node_id ((key, s) ∷ rest) =
      let others = sessions_without node_id rest in
      if key.remote_node == node_id then others else (key, s) ∷ others

  unfoldable pub entries_with : ℕ → List (SessionKey × ReliableSession F) → List RetransmitEntry
  entries_with node_id [] = []
  entries_with node_id ((key, s) ∷ rest) =
      let others = entries_with node_id rest in
      if key.remote_node == node_id then (kill s).1 ++ others else others

module _ {F Sender : Type 0} where
  unfoldable pub invalidate_session :
      TransportManager F Sender → ℕ → ℕ → TransportManager F Sender × List RetransmitEntry
  invalidate_session m remote_node old_epoch =
      elim (lookup (key_of m remote_node old_epoch) m.sessions) [
        | none ↦ (m, [])
        | some s ↦ (
          record m { sessions = map_remove (key_of m remote_node old_epoch) m.sessions },
          (kill s).1,
        )
      ]

  unfoldable pub register_peer_sender :
      TransportManager F Sender → ℕ → Sender → TransportManager F Sender
  register_peer_sender m node_id sender = record m {
    peer_senders = map_insert node_id sender m.peer_senders;
  }

  unfoldable pub remove_peer_sender : TransportManager F Sender → ℕ → TransportManager F Sender
  remove_peer_sender m node_id = record m { peer_senders = map_remove node_id m.peer_senders }

  unfoldable pub notify_peer_down :
      TransportManager F Sender → ℕ → TransportManager F Sender × List RetransmitEntry
  unfolding sessions_without entries_with
  notify_peer_down m node_id = (
    record m {
      peer_senders = map_remove node_id m.peer_senders;
      sessions = sessions_without node_id m.sessions;
      peer_epochs = map_remove node_id m.peer_epochs;
    },
    entries_with node_id m.sessions,
  )

  unfoldable pub on_session :
      (ReliableSession F → ReliableSession F)
      → TransportManager F Sender
      → ℕ
      → TransportManager F Sender
  unfolding find_session store
  on_session change m remote_node = elim (find_session m remote_node) [
    | none ↦ m
    | some (key, s) ↦ store key (change s) m
  ]

  unfoldable pub mark_executed : TransportManager F Sender → ℕ → ℕ → TransportManager F Sender
  unfolding on_session
  mark_executed m remote_node seq = on_session (Receiving.mark_executed seq) m remote_node

  unfoldable pub is_executed : TransportManager F Sender → ℕ → ℕ → Bool
  unfolding find_session
  is_executed m remote_node seq = elim (find_session m remote_node) [
    | none ↦ false
    | some (key, s) ↦ Receiving.is_executed s seq
  ]

  unfoldable pub complete_request : TransportManager F Sender → ℕ → ℕ → TransportManager F Sender
  unfolding on_session
  complete_request m remote_node opaque =
      on_session (λ s. (Sending.complete_request opaque s).0) m remote_node

  -- `grant_credits` on the session it found, the new credits counted
  unfoldable pub grant_on :
      (Sender → Bool)
      → ℕ
      → SessionKey
      → ReliableSession F
      → TransportManager F Sender
      → TransportManager F Sender
  unfolding store send_credit_frame
  grant_on accepts remote_node key s m =
      if leb 8 s.credits_to_grant && not (should_send_ack s)
      then send_credit_frame accepts (store key (record s { credits_to_grant = 0 }) m) remote_node
          s.credits_to_grant
      else store key s m

  unfoldable pub grant_credits :
      (Sender → Bool) → TransportManager F Sender → ℕ → ℕ → TransportManager F Sender
  unfolding find_session grant_on
  grant_credits accepts m remote_node count = elim (find_session m remote_node) [
    | none ↦ m
    | some (key, s) ↦
        grant_on accepts remote_node key
          (record s { credits_to_grant = (s.credits_to_grant + count) % 2 ^ 32 }) m
  ]

  unfoldable pub read_cache_get :
      ℕ → TransportManager F Sender → ℕ → CacheKey → TransportManager F Sender × Option (List ℕ)
  unfolding find_session store
  read_cache_get now m remote_node cache_key = elim (find_session m remote_node) [
    | none ↦ (m, none)
    | some (key, s) ↦
        let r = ReadCache.get now s.read_cache cache_key in
        (store key (record s { read_cache = r.0 }) m, r.1)
  ]

  unfoldable pub read_cache_insert :
      ℕ → ℕ → TransportManager F Sender → ℕ → CacheKey → List ℕ → TransportManager F Sender
  unfolding on_session
  read_cache_insert now later m remote_node cache_key response =
      on_session
        (λ s. record s { read_cache = ReadCache.insert now later s.read_cache cache_key response })
        m remote_node

module _ {F Sender : Type 0} ⦃f : FloatOps F⦄ where
  unfoldable pub create_session :
      TransportManager F Sender → ℕ → ℕ → ℕ → Result (TransportManager F Sender)
  create_session m remote_node epoch initial_credits =
      let key = key_of m remote_node epoch in
      let s = new m.local_node_id remote_node epoch m.rto_ms m.max_retries initial_credits in
      if contains_key key m.sessions
      then err (internal session_exists)
      else ok (record m {
        sessions = map_insert key s m.sessions;
        peer_epochs = map_insert remote_node epoch m.peer_epochs;
      })
