-- ===== src/Transport/Session/State.antt =====
-- crates/ub-transport/src/session.rs: the state of a session with a peer, and its start and end.
-- Integers wrap at their width as in a release build. Instants are nanoseconds, and each call of
-- `Instant::now()` is an argument. The floats of the round-trip estimate are a parameter.
use unibus_toy.Base.{ℕ, ◌-◌, ◌*◌, ◌^◌, min, max, Bool, List, []}
use unibus_toy.Transport.Dedup
use unibus_toy.Transport.Dedup.{DedupWindow}
use unibus_toy.Transport.ReadCache
use unibus_toy.Transport.ReadCache.{ReadResponseCache}

-- The operations on `f64` that the estimate uses; nothing is assumed of them.
pub record FloatOps (F : Type 0) : Type 0 where
  pub of_u64 : ℕ → F
  pub plus : F → F → F
  pub minus : F → F → F
  pub times : F → F → F
  pub half_of : F → F
  pub absolute : F → F
  pub is_positive : F → Bool
  pub round_u64 : F → ℕ
  pub eighths_7 : F
  pub eighth : F
  pub quarters_3 : F
  pub quarter : F
  pub four : F

pub record SessionKey : Type 0 where
  pub local_node : ℕ
  pub remote_node : ℕ
  pub epoch : ℕ

pub data SessionState : Type 0 where
  active dead : SessionState

pub record RetransmitEntry : Type 0 where
  pub seq : ℕ
  pub frame : List ℕ
  pub first_sent_at : ℕ
  pub rto_deadline : ℕ
  pub retry_count : ℕ
  pub is_fire_and_forget : Bool
  pub opaque : ℕ

pub data ReceiveAction : Type 0 where
  deliver duplicate out_of_order beyond_window : ReceiveAction

pub record ReliableSession (F : Type 0) : Type 0 where
  pub key : SessionKey
  pub state : SessionState
  pub next_seq : ℕ
  pub available_credits : ℕ
  pub retransmit_queue : List RetransmitEntry
  pub rto_base_ms : ℕ
  pub max_retries : ℕ
  pub cwnd : ℕ
  pub ssthresh : ℕ
  pub srtt : F
  pub rttvar : F
  pub rto : ℕ
  pub dup_ack_count : ℕ
  pub last_ack_seq : ℕ
  pub dedup : DedupWindow
  pub execution_records : List (ℕ × Bool)
  pub read_cache : ReadResponseCache
  pub credits_to_grant : ℕ
  pub frames_since_last_ack : ℕ

abbrev pub u32_max : ℕ
u32_max = 2 ^ 32 - 1

-- `ms` milliseconds in nanoseconds
abbrev pub from_millis : ℕ → ℕ
from_millis ms = ms * 1_000_000

-- `x.max(200).min(60000)`
abbrev pub clamp_rto : ℕ → ℕ
clamp_rto x = min (max x 200) 60_000

module _ {F : Type 0} ⦃f : FloatOps F⦄ where
  unfoldable pub new : ℕ → ℕ → ℕ → ℕ → ℕ → ℕ → ReliableSession F
  new local_node remote_node epoch rto_base_ms max_retries initial_credits = record {
    key = record { local_node = local_node; remote_node = remote_node; epoch = epoch };
    state = active;
    next_seq = 1;
    available_credits = initial_credits;
    retransmit_queue = [];
    rto_base_ms = rto_base_ms;
    max_retries = max_retries;
    cwnd = initial_credits;
    ssthresh = u32_max;
    srtt = f.of_u64 rto_base_ms;
    rttvar = f.half_of (f.of_u64 rto_base_ms);
    rto = clamp_rto rto_base_ms;
    dup_ack_count = 0;
    last_ack_seq = 0;
    dedup = Dedup.new 1;
    execution_records = [];
    read_cache = ReadCache.default_cache;
    credits_to_grant = 0;
    frames_since_last_ack = 0;
  }

module _ {F : Type 0} where
  unfoldable pub kill : ReliableSession F → ReliableSession F × List RetransmitEntry
  kill s = (record s { state = dead; retransmit_queue = [] }, s.retransmit_queue)
