-- ===== src/Managed/Region.antt =====
-- crates/ub-managed/src/region.rs: the table of the regions that a node knows.
use unibus_toy.Base.{ℕ, Bool, Option, List}
use unibus_toy.Base.Assoc.{
  number_key, lookup as map_lookup, insert as map_insert, remove as map_remove, modify,
  contains_key,
}

pub data RegionState : Type 0 where
  invalid : RegionState
  shared : ℕ → RegionState
  home : RegionState

pub record RegionInfo : Type 0 where
  pub region_id : ℕ
  pub home_node_id : ℕ
  pub device_id : ℕ
  pub mr_handle : ℕ
  pub base_offset : ℕ
  pub len : ℕ
  pub epoch : ℕ
  pub state : RegionState
  pub local_mr_handle : Option ℕ

abbrev pub RegionTable : Type 0
RegionTable = List (ℕ × RegionInfo)

unfoldable pub insert : RegionInfo → RegionTable → RegionTable
insert info t = map_insert info.region_id info t

unfoldable pub lookup : ℕ → RegionTable → Option RegionInfo
lookup region_id t = map_lookup region_id t

unfoldable pub remove : ℕ → RegionTable → RegionTable × Option RegionInfo
remove region_id t = (map_remove region_id t, map_lookup region_id t)

unfoldable pub set_state : ℕ → RegionState → RegionTable → RegionTable × Bool
set_state region_id state t =
    (modify region_id (λ info. record info { state = state }) t, contains_key region_id t)

unfoldable pub set_epoch : ℕ → ℕ → RegionTable → RegionTable × Bool
set_epoch region_id epoch t =
    (modify region_id (λ info. record info { epoch = epoch }) t, contains_key region_id t)
