-- ===== src/Transport/Manager/State.antt =====
-- crates/ub-transport/src/manager.rs: the state of the manager. `Sender` is the type of the bounded
-- channels to the peers, `sent` what they took, and `inbound` what went to the layer above, whose
-- channel is unbounded. An operation runs as one step: the locks of the code are held within it.
use unibus_toy.Base.{ℕ, ◌≡◌, ◌↔◌, Bool, true, ◌&&◌, List, arith, ◌==◌}
use unibus_toy.Base.Assoc.{Key}
use unibus_toy.Wire.Frame.{FrameHeader, DataExtHeader}
use unibus_toy.Transport.Session.State.{SessionKey, ReliableSession}

pub record InboundFrame : Type 0 where
  pub header : FrameHeader
  pub ext : DataExtHeader
  pub payload : List ℕ
  pub seq : ℕ

pub record TransportManager (F Sender : Type 0) : Type 0 where
  pub local_node_id : ℕ
  pub sessions : List (SessionKey × ReliableSession F)
  pub peer_senders : List (ℕ × Sender)
  pub rto_ms : ℕ
  pub max_retries : ℕ
  pub peer_epochs : List (ℕ × ℕ)
  pub inbound : List InboundFrame
  pub sent : List (Sender × List ℕ)

-- The derived `==` of `SessionKey`.
abbrev same_session : SessionKey → SessionKey → Bool
same_session j k =
    (j.local_node == k.local_node) && (j.remote_node == k.remote_node) && (j.epoch == k.epoch)

pub same_session_iff : (j k : SessionKey) → (same_session j k ≡ true) ↔ (j ≡ k)
same_session_iff j k = ground arith

instance abbrev pub session_key : Key SessionKey
session_key = record { same = same_session; same_iff = same_session_iff }

module _ {F Sender : Type 0} where
  abbrev pub key_of : TransportManager F Sender → ℕ → ℕ → SessionKey
  key_of m remote_node epoch = record {
    local_node = m.local_node_id;
    remote_node = remote_node;
    epoch = epoch;
  }
