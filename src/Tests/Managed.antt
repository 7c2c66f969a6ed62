-- ===== src/Tests/Managed.antt =====
-- crates/ub-managed at concrete inputs.
use unibus_toy.Base.{ℕ, ◌+◌, ◌*◌, ◌≡◌, refl, true, some, List, [], ◌∷◌, arith, ltb, if◌then◌else◌}
use unibus_toy.Base.Assoc.{number_key, lookup, insert as map_insert, modify, contains_key}
use unibus_toy.Managed.Coherence
use unibus_toy.Managed.Coherence.{
  RegionHomeState, CoherenceManager, denied, granted, acquire_writer, held_by_other, holder_of,
  get_writer, get_readers, register_region, home_state, writer_of,
}
use unibus_toy.Managed.Coherence.Lease.{held_until, answer, lock_after, queue_after, acquire_writer_lem}
use unibus_toy.Managed.Coherence.Runs.{
  Call, acquire, release, reader_added, leases_checked, perform_all,
}
use unibus_toy.Managed.Coherence.Exclusive.{lease_is_exclusive}
use unibus_toy.Managed.SubAlloc
use unibus_toy.Managed.SubAlloc.{SubAllocator, alloc}
use unibus_toy.Managed.SubAlloc.Disjoint.{Apart, IsPool, alloc_all, alloc_all-Apart}
use unibus_toy.Managed.CachePool
use unibus_toy.Managed.CachePool.{CachePool, insert}
use unibus_toy.Managed.CachePool.Budget.{total, IsBalanced}
use unibus_toy.Managed.CachePool.Insert.{is_refused, insert-IsBalanced}

-- Region 5 is registered, with a lease of 5 ms for its writer.
abbrev home : CoherenceManager
home = register_region 5 1 0 4096 (Coherence.new 5)

abbrev fresh_state : RegionHomeState
fresh_state = home_state 1 0 4096 0

registered : lookup 5 home.home_states ≡ some fresh_state
unfolding lookup map_insert register_region Coherence.new
registered = refl

-- Node 3 has written since the time 0.
abbrev writing : CoherenceManager
writing = (acquire_writer 0 0 5 3 home).0

abbrev calls : List (ℕ × Call)
calls =
    (10, acquire 10 5 4) ∷ (20, reader_added 5 9) ∷ (30, release 5 4) ∷ (40, leases_checked) ∷ []

lease_is_exclusive_example :
    (held_until 3 5_000_000 (get_writer 5 (perform_all calls writing)) ≡ true)
    × ((acquire_writer 60 61 5 4 (perform_all calls writing)).1 ≡ denied 5 3)
unfolding acquire_writer get_writer register_region Coherence.new home_state lookup writer_of
    held_by_other Coherence.grant Coherence.set_writer held_until map_insert modify
lease_is_exclusive_example =
    lease_is_exclusive 5 5 3 4 5_000_000 60 61 calls writing refl refl
      ((omega arith, omega arith), (omega arith, ((omega arith, refl), (omega arith, tt)))) refl
      (omega arith)

-- Node 4 asks while node 3 writes.
abbrev written_state : RegionHomeState
written_state =
    record fresh_state { writer = some (record { writer_node_id = 3; lease_deadline = 5_000_000 }) }

written : lookup 5 writing.home_states ≡ some written_state
unfolding acquire_writer Coherence.grant Coherence.set_writer held_by_other register_region
    Coherence.new home_state lookup map_insert modify
written = refl

acquire_writer_lem_example :
    let o = acquire_writer 70 71 5 4 writing in
    (o.1 ≡ answer 70 5 4 written_state.epoch written_state.writer)
    × (get_writer 5 o.0
        ≡ some (lock_after 70 4 (71 + writing.writer_lease_ms * 1_000_000) written_state.writer))
    × (get_readers 5 o.0 ≡ written_state.readers)
    × (lookup 5 o.0.wait_queues
        ≡ queue_after 70 4 written_state.writer (lookup 5 writing.wait_queues))
acquire_writer_lem_example = acquire_writer_lem 70 71 5 4 writing written_state written

abbrev pool : SubAllocator
pool = SubAlloc.new 4096 100

pool-IsPool : IsPool pool
unfolding SubAlloc.new
pool-IsPool = record { fits = omega arith; within = omega arith }

alloc_all-Apart_example :
    Apart
      (pool.base_offset + pool.allocated)
      (alloc_all (60 ∷ 60 ∷ 40 ∷ []) pool).1
      (pool.base_offset + pool.total_len)
unfolding SubAlloc.new
alloc_all-Apart_example =
    alloc_all-Apart (60 ∷ 60 ∷ 40 ∷ []) pool pool-IsPool
      (omega arith, (omega arith, (omega arith, tt)))

-- Regions 7 and 8 are cached, and there is room for one of 60 bytes only without one of them.
abbrev cached : CachePool
cached = record (CachePool.new pool 100) {
  entries =
      (7, record { region_id = 7; pool_offset = 0; len = 30; epoch = 1; last_access = 5 })
      ∷ (8, record { region_id = 8; pool_offset = 30; len = 40; epoch = 1; last_access = 4 })
      ∷ [];
  used_bytes = 70;
}

cached-IsBalanced : IsBalanced 60 cached
unfolding CachePool.new total contains_key
cached-IsBalanced = record {
  distinct = (refl, (refl, tt));
  counted = refl;
  within = omega arith;
  room = omega arith;
}

insert-IsBalanced_example :
    IsBalanced 60 (insert 9 6 60 1 cached).0
    × (is_refused (insert 9 6 60 1 cached).1 ≡ ltb cached.max_bytes 60)
insert-IsBalanced_example =
    insert-IsBalanced 9 6 60 1 cached cached-IsBalanced
      (unfold CachePool.contains contains_key in refl)
