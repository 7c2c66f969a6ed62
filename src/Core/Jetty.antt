-- ===== src/Core/Jetty.antt =====
-- crates/ub-core/src/jetty.rs: a jetty, with its queues of sends, of receive buffers and of
-- completions. The notification of the send worker is the one permit that `Notify` stores.
pub mod Depths
pub mod Order
pub mod Table
use unibus_toy.Base.{
  ℕ, Bool, true, false, Option, none, some, List, [], ◌∷◌, ◌++◌, leb, if◌then◌else◌, length,
}
use unibus_toy.Core.Error.{Result, ok, err, no_resources, status_code, flushed}
use unibus_toy.Core.Verb
use unibus_toy.Core.Verb.{Verb}

pub record RecvBuffer : Type 0 where
  pub buf : List ℕ
  pub wr_id : ℕ

pub record JettyAddr : Type 0 where
  pub node_id : ℕ
  pub jetty_id : ℕ

pub record WorkRequest : Type 0 where
  pub wr_id : ℕ
  pub dst_jetty : JettyAddr
  pub payload : List ℕ
  pub imm : Option ℕ
  pub verb : Verb
  pub ub_addr : Option ℕ
  pub mr_handle : Option ℕ

pub record Cqe : Type 0 where
  pub wr_id : ℕ
  pub status : ℕ
  pub imm : Option ℕ
  pub byte_len : ℕ
  pub jetty_id : ℕ
  pub verb : Verb

pub record JettyConfig : Type 0 where
  pub jfs_depth : ℕ
  pub jfr_depth : ℕ
  pub jfc_depth : ℕ
  pub jfc_high_watermark : ℕ

pub record Jetty : Type 0 where
  pub handle : ℕ
  pub node_id : ℕ
  pub jfs : List WorkRequest
  pub jfr : List RecvBuffer
  pub jfc : List Cqe
  pub jfs_depth : ℕ
  pub jfr_depth : ℕ
  pub jfc_depth : ℕ
  pub jfc_high_watermark : ℕ
  pub notify : Bool
  pub closed : Bool

unfoldable pub new : ℕ → ℕ → JettyConfig → Jetty
new handle node_id config = record {
  handle = handle;
  node_id = node_id;
  jfs = [];
  jfr = [];
  jfc = [];
  jfs_depth = config.jfs_depth;
  jfr_depth = config.jfr_depth;
  jfc_depth = config.jfc_depth;
  jfc_high_watermark = config.jfc_high_watermark;
  notify = false;
  closed = false;
}

unfoldable pub post_recv : List ℕ → ℕ → Jetty → Result (Unit {0}) × Jetty
post_recv buf wr_id j =
    if leb j.jfr_depth (length j.jfr)
    then (err no_resources, j)
    else (ok tt, record j { jfr = j.jfr ++ (record { buf = buf; wr_id = wr_id } ∷ []) })

unfoldable pub post_send : WorkRequest → Jetty → Result (Unit {0}) × Jetty
post_send wr j =
    if leb j.jfc_high_watermark (length j.jfc)
    then (err no_resources, j)
    else if leb j.jfs_depth (length j.jfs)
    then (err no_resources, j)
    else (ok tt, record j { jfs = j.jfs ++ (wr ∷ []); notify = true })

unfoldable pub pop_send : Jetty → Option WorkRequest × Jetty
pop_send j = elim j.jfs [ [] ↦ (none, j) | wr ∷ jfs ↦ (some wr, record j { jfs = jfs }) ]

unfoldable pub pop_recv : Jetty → Option RecvBuffer × Jetty
pop_recv j = elim j.jfr [ [] ↦ (none, j) | buffer ∷ jfr ↦ (some buffer, record j { jfr = jfr }) ]

unfoldable pub push_cqe : Cqe → Jetty → Result (Unit {0}) × Jetty
push_cqe cqe j =
    if leb j.jfc_depth (length j.jfc)
    then (err no_resources, j)
    else (ok tt, record j { jfc = j.jfc ++ (cqe ∷ []) })

unfoldable pub poll_cqe : Jetty → Option Cqe × Jetty
poll_cqe j = elim j.jfc [ [] ↦ (none, j) | cqe ∷ jfc ↦ (some cqe, record j { jfc = jfc }) ]

unfoldable pub cqe_count : Jetty → ℕ
cqe_count j = length j.jfc

unfoldable pub addr : Jetty → JettyAddr
addr j = record { node_id = j.node_id; jetty_id = j.handle }

unfoldable pub flushed_cqe : ℕ → ℕ → Verb → Cqe
flushed_cqe jetty_id wr_id verb = record {
  wr_id = wr_id;
  status = status_code flushed;
  imm = none;
  byte_len = 0;
  jetty_id = jetty_id;
  verb = verb;
}

-- The two loops of `close`
unfoldable pub flush_jfs : ℕ → List WorkRequest → List Cqe → List Cqe
flush_jfs jetty_id [] jfc = jfc
flush_jfs jetty_id (wr ∷ jfs) jfc =
    flush_jfs jetty_id jfs (jfc ++ (flushed_cqe jetty_id wr.wr_id wr.verb ∷ []))

unfoldable pub flush_jfr : ℕ → List RecvBuffer → List Cqe → List Cqe
flush_jfr jetty_id [] jfc = jfc
flush_jfr jetty_id (buffer ∷ jfr) jfc =
    flush_jfr jetty_id jfr (jfc ++ (flushed_cqe jetty_id buffer.wr_id Verb.send ∷ []))

unfoldable pub close : Jetty → Jetty
close j = if j.closed then j else record j {
  closed = true;
  jfs = [];
  jfr = [];
  jfc = flush_jfr j.handle j.jfr (flush_jfs j.handle j.jfs j.jfc);
}
