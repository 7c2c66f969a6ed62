-- ===== src/Dataplane/State.antt =====
-- crates/ub-dataplane/src/lib.rs: the state of the verb engine. The one-shot channels are numbers,
-- and `answered` is what was sent on them. `alive` says that the task of the inbound frames runs:
-- a panic in a handler ends it, and what the handler held stays held.
use unibus_toy.Base.{
  ℕ, ◌+◌, ◌-◌, ◌%◌, ◌^◌, Bool, true, false, Option, none, some, List, [], leb, if◌then◌else◌,
}
use unibus_toy.Base.Assoc.{number_key, modify}
use unibus_toy.Core.Addr
use unibus_toy.Core.Mr
use unibus_toy.Core.Mr.{MrTable, MrEntry, try_inflight_inc, inflight_dec}
use unibus_toy.Core.MrCache.{MrCacheTable}
use unibus_toy.Core.Jetty.Table.{JettyTable}
use unibus_toy.Core.Verbs.{Devices}
use unibus_toy.Wire.Frame.{DataExtHeader}
use unibus_toy.Transport.Manager.State.{TransportManager}

pub record VerbResponse : Type 0 where
  pub status : ℕ
  pub payload : List ℕ

pub record DataPlaneEngine (F Sender : Type 0) : Type 0 where
  pub local_node_id : ℕ
  pub mr_table : MrTable
  pub mr_cache : MrCacheTable
  pub jetty_table : JettyTable
  pub devices : Devices
  pub transport : TransportManager F Sender
  pub pending_requests : List (ℕ × ℕ)
  pub next_opaque : ℕ
  pub next_channel : ℕ
  pub answered : List (ℕ × VerbResponse)
  pub alive : Bool

-- What a step reads of the world: the channels that take a frame, and the clock of each
-- `Instant::now()`, in the order of the calls.
pub record Moment (Sender : Type 0) : Type 0 where
  pub accepts : Sender → Bool
  pub first_now : ℕ
  pub second_now : ℕ

-- `ext.ub_addr.offset() - entry.base_ub_addr.offset()`, or 0 before the base
unfoldable pub offset_in_mr : DataExtHeader → MrEntry → ℕ
offset_in_mr ext e =
    if leb (Addr.offset e.base_ub_addr) (Addr.offset ext.ub_addr)
    then Addr.offset ext.ub_addr - Addr.offset e.base_ub_addr
    else 0

unfoldable pub device_offset : DataExtHeader → MrEntry → ℕ
device_offset ext e = (e.base_offset + offset_in_mr ext e) % 2 ^ 64

-- `mr_table.lookup` and `try_inflight_inc`, which the handlers answer alike when they fail.
unfoldable pub hold : ℕ → MrTable → Option MrEntry × MrTable
hold handle t = elim (Mr.lookup handle t) [
  | none ↦ (none, t)
  | some e ↦
      if (try_inflight_inc e).0
      then (
        some (try_inflight_inc e).1,
        record t { entries = modify handle (λ (x : MrEntry). (try_inflight_inc x).1) t.entries },
      )
      else (none, t)
]

module _ {F Sender : Type 0} where
  unfoldable pub new :
      ℕ
      → MrTable
      → MrCacheTable
      → JettyTable
      → Devices
      → TransportManager F Sender
      → DataPlaneEngine F Sender
  new local_node_id mr_table mr_cache jetty_table devices transport = record {
    local_node_id = local_node_id;
    mr_table = mr_table;
    mr_cache = mr_cache;
    jetty_table = jetty_table;
    devices = devices;
    transport = transport;
    pending_requests = [];
    next_opaque = 1;
    next_channel = 0;
    answered = [];
    alive = true;
  }

  unfoldable pub with_table : MrTable → DataPlaneEngine F Sender → DataPlaneEngine F Sender
  with_table t g = record g { mr_table = t }

  -- `entry.inflight_dec()`
  unfoldable pub let_go : ℕ → DataPlaneEngine F Sender → DataPlaneEngine F Sender
  let_go handle g =
      with_table
        (record g.mr_table {
          entries = modify handle (λ (x : MrEntry). (inflight_dec x).1) g.mr_table.entries;
        })
        g

  unfoldable pub dies : DataPlaneEngine F Sender → DataPlaneEngine F Sender
  dies g = record g { alive = false }
