-- ===== src/Core/MrCache.antt =====
-- crates/ub-core/src/mr.rs: the cache of the regions of other nodes.
use unibus_toy.Base.{ℕ, Option, none, some, List, [], ◌∷◌, if◌then◌else◌, map}
use unibus_toy.Base.Assoc.{pair_key, insert as map_insert, remove as map_remove}
use unibus_toy.Core.DeviceKind.{DeviceKind}
use unibus_toy.Core.Mr.{covers}

pub record MrCacheEntry : Type 0 where
  pub remote_mr_handle : ℕ
  pub owner_node : ℕ
  pub base_ub_addr : ℕ
  pub len : ℕ
  pub perms : ℕ
  pub device_kind : DeviceKind

abbrev pub MrCacheTable : Type 0
MrCacheTable = List ((ℕ × ℕ) × MrCacheEntry)

unfoldable pub insert : MrCacheEntry → MrCacheTable → MrCacheTable
insert entry t = map_insert (entry.owner_node, entry.remote_mr_handle) entry t

unfoldable pub remove : ℕ → ℕ → MrCacheTable → MrCacheTable
remove owner_node mr_handle t = map_remove (owner_node, mr_handle) t

unfoldable pub lookup_by_addr : ℕ → MrCacheTable → Option MrCacheEntry
lookup_by_addr addr [] = none
lookup_by_addr addr ((k, e) ∷ es) =
    let rest = lookup_by_addr addr es in if covers addr e.base_ub_addr e.len then some e else rest

unfoldable pub list : MrCacheTable → List MrCacheEntry
list t = map (λ (p : (ℕ × ℕ) × MrCacheEntry). p.1) t
