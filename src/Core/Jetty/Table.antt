-- ===== src/Core/Jetty/Table.antt =====
-- crates/ub-core/src/jetty.rs: the table of the jetties of a node. `deregister` closes a jetty that
-- others may still hold: the closed jetty is handed out.
pub mod Defaults
use unibus_toy.Base.{
  ℕ, ◌+◌, ◌%◌, ◌^◌, Bool, true, false, Option, none, some, List, [], ◌∷◌, ◌==◌, if◌then◌else◌, map,
  length,
}
use unibus_toy.Base.Assoc.{
  number_key, lookup as map_lookup, insert as map_insert, remove as map_remove, contains_key,
}
use unibus_toy.Core.Error.{Result, ok, err, addr_invalid}
use unibus_toy.Core.Jetty
use unibus_toy.Core.Jetty.{Jetty, JettyConfig, cqe_count}

pub record JettyTable : Type 0 where
  pub entries : List (ℕ × Jetty)
  pub next_handle : ℕ
  pub node_id : ℕ
  pub config : JettyConfig
  pub default_handle : ℕ

unfoldable pub new : ℕ → JettyConfig → JettyTable
new node_id config = record {
  entries = [];
  next_handle = 1;
  node_id = node_id;
  config = config;
  default_handle = 0;
}

-- `compare_exchange(expected, new)`
unfoldable pub exchange : ℕ → ℕ → ℕ → ℕ
exchange expected value current = if current == expected then value else current

unfoldable pub create : JettyTable → ℕ × JettyTable
create t = (
  t.next_handle,
  record t {
    entries = map_insert t.next_handle (Jetty.new t.next_handle t.node_id t.config) t.entries;
    next_handle = (t.next_handle + 1) % 2 ^ 32;
    default_handle = exchange 0 t.next_handle t.default_handle;
  },
)

unfoldable pub default_jetty : JettyTable → Option ℕ
default_jetty t =
    if t.default_handle == 0
    then none
    else if contains_key t.default_handle t.entries
    then some t.default_handle
    else none

unfoldable pub lookup : ℕ → JettyTable → Option Jetty
lookup handle t = map_lookup handle t.entries

unfoldable pub deregister : ℕ → JettyTable → Result Jetty × JettyTable
deregister handle t = elim (map_lookup handle t.entries) [
  | none ↦ (err addr_invalid, t)
  | some j ↦ (
    ok (Jetty.close j),
    record t {
      entries = map_remove handle t.entries;
      default_handle = exchange handle 0 t.default_handle;
    },
  )
]

pub record JettyInfo : Type 0 where
  pub handle : ℕ
  pub node_id : ℕ
  pub jfs_depth : ℕ
  pub jfr_depth : ℕ
  pub jfc_depth : ℕ
  pub jfc_high_watermark : ℕ
  pub cqe_count : ℕ
  pub jfs_count : ℕ
  pub jfr_count : ℕ

unfoldable pub info : Jetty → JettyInfo
info j = record {
  handle = j.handle;
  node_id = j.node_id;
  jfs_depth = j.jfs_depth;
  jfr_depth = j.jfr_depth;
  jfc_depth = j.jfc_depth;
  jfc_high_watermark = j.jfc_high_watermark;
  cqe_count = cqe_count j;
  jfs_count = length j.jfs;
  jfr_count = length j.jfr;
}

unfoldable pub list : JettyTable → List JettyInfo
list t = map (λ (p : ℕ × Jetty). info p.1) t.entries
