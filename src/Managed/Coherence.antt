-- ===== src/Managed/Coherence.antt =====
-- crates/ub-managed/src/coherence.rs: who reads and who writes a region, on its home node. A set of
-- nodes is a list that holds each once. Every reading of the clock is an argument.

pub mod Lease
pub mod Runs
pub mod Exclusive
use unibus_toy.Base.{
  ℕ, zero, suc, ◌+◌, ◌-◌, ◌*◌, ◌/◌, ◌%◌, ◌^◌, ◌≤◌, ◌<◌, bit_and, bit_or, min, max, ◌≡◌, refl, sym,
  ap, ◌∙◌, ◌≢◌, ◌↔◌, ◌⊎◌, inl, inr, Bool, true, false, not, ◌&&◌, ◌||◌, Option, none, some, List,
  [], ◌∷◌, ◌++◌, map, arith, ltb, leb, ◌==◌, if◌then◌else◌, ltb→lt, lt→ltb, leb→le, le→leb,
  lt→not-leb, ==_iff, ==-refl, Bool-cases, Option-cases, Bool-ext, length, get_or, set, take, drop,
  replicate, All, length-append, length-set, get_or-set_self, get_or-set_ne, All-set, All-append,
  drop-append, take-append, length-drop,
}
use mathlib.Core.Option
use unibus_toy.Base.Assoc.{
  number_key, lookup, insert as map_insert, remove as map_remove, modify, contains_key,
}

pub record WriterInfo : Type 0 where
  pub writer_node_id : ℕ
  pub lease_deadline : ℕ

pub record RegionHomeState : Type 0 where
  pub mr_handle : ℕ
  pub base_offset : ℕ
  pub len : ℕ
  pub epoch : ℕ
  pub readers : List ℕ
  pub writer : Option WriterInfo

-- The text of `Denied` names the node that holds the lock.
pub data AcquireWriterResult : Type 0 where
  granted : ℕ → ℕ → AcquireWriterResult
  denied : ℕ → ℕ → AcquireWriterResult
  queued : ℕ → AcquireWriterResult
  not_found : AcquireWriterResult

pub record CoherenceManager : Type 0 where
  pub home_states : List (ℕ × RegionHomeState)
  pub writer_lease_ms : ℕ
  pub wait_queues : List (ℕ × List ℕ)

abbrev contains : ℕ → List ℕ → Bool
contains n [] = false
contains n (x ∷ xs) = (x == n) || contains n xs

abbrev without : ℕ → List ℕ → List ℕ
without n [] = []
without n (x ∷ xs) = let rest = without n xs in if x == n then rest else x ∷ rest

-- `queues.entry(region_id).or_default()`
abbrev pub queue_or_empty : Option (List ℕ) → List ℕ
queue_or_empty none = []
queue_or_empty (some q) = q

unfoldable pub home_state : ℕ → ℕ → ℕ → ℕ → RegionHomeState
home_state mr_handle base_offset len epoch = record {
  mr_handle = mr_handle;
  base_offset = base_offset;
  len = len;
  epoch = epoch;
  readers = [];
  writer = none;
}

unfoldable pub insert_reader : ℕ → RegionHomeState → RegionHomeState
insert_reader node_id h = record h {
  readers = if contains node_id h.readers then h.readers else node_id ∷ h.readers;
}

unfoldable pub drop_reader : ℕ → RegionHomeState → RegionHomeState
drop_reader node_id h = record h { readers = without node_id h.readers }

unfoldable pub next_epoch : RegionHomeState → RegionHomeState
next_epoch h = record h { epoch = (h.epoch + 1) % 2 ^ 64 }

unfoldable pub new : ℕ → CoherenceManager
new writer_lease_ms = record {
  home_states = [];
  writer_lease_ms = writer_lease_ms;
  wait_queues = [];
}

unfoldable pub register_region : ℕ → ℕ → ℕ → ℕ → CoherenceManager → CoherenceManager
unfolding home_state
register_region region_id mr_handle base_offset len m = record m {
  home_states = map_insert region_id (home_state mr_handle base_offset len 0) m.home_states;
}

unfoldable pub unregister_region : ℕ → CoherenceManager → CoherenceManager × Option RegionHomeState
unregister_region region_id m =
    (record m { home_states = map_remove region_id m.home_states }, lookup region_id m.home_states)

unfoldable pub contains_region : ℕ → CoherenceManager → Bool
contains_region region_id m = contains_key region_id m.home_states

-- Another node than `node` holds the lock, and its lease has not expired.
unfoldable pub held_by_other : ℕ → ℕ → Option WriterInfo → Bool
held_by_other now node none = false
held_by_other now node (some info) =
    leb now info.lease_deadline && not (info.writer_node_id == node)

unfoldable pub holder_of : Option WriterInfo → ℕ
holder_of none = 0
holder_of (some info) = info.writer_node_id

-- `*state.writer.write() = Some(WriterInfo { … })`, with the deadline of a new lease
unfoldable pub set_writer : ℕ → ℕ → ℕ → CoherenceManager → CoherenceManager
set_writer later region_id node m = record m {
  home_states =
      modify region_id
        (λ h. record h {
          writer = some (record {
            writer_node_id = node;
            lease_deadline = later + m.writer_lease_ms * 1_000_000;
          });
        })
        m.home_states;
}

-- The two branches at the end of `acquire_writer`, for a region without readers and with some.
unfoldable pub grant :
    ℕ → ℕ → ℕ → ℕ → List ℕ → CoherenceManager → CoherenceManager × AcquireWriterResult
unfolding set_writer
grant later region_id node epoch [] m = (set_writer later region_id node m, granted region_id epoch)
grant later region_id node epoch (x ∷ readers) m =
    (set_writer later region_id node m, granted region_id epoch)

unfoldable pub enqueue : ℕ → ℕ → CoherenceManager → CoherenceManager
enqueue region_id node m = record m {
  wait_queues =
      map_insert region_id (queue_or_empty (lookup region_id m.wait_queues) ++ (node ∷ []))
        m.wait_queues;
}

unfoldable pub acquire_writer :
    ℕ → ℕ → ℕ → ℕ → CoherenceManager → CoherenceManager × AcquireWriterResult
unfolding held_by_other holder_of grant enqueue
acquire_writer now later region_id node m = elim (lookup region_id m.home_states) [
  | none ↦ (m, not_found)
  | some h ↦
      if held_by_other now node h.writer
      then (enqueue region_id node m, denied region_id (holder_of h.writer))
      else grant later region_id node h.epoch h.readers m
]

-- `Some(info) if info.writer_node_id == writer_node_id`
unfoldable pub is_writer : ℕ → Option WriterInfo → Bool
is_writer node none = false
is_writer node (some info) = info.writer_node_id == node

abbrev is_empty : Option (List ℕ) → Bool
is_empty none = false
is_empty (some []) = true
is_empty (some (x ∷ q)) = false

unfoldable pub release_writer : ℕ → ℕ → CoherenceManager → CoherenceManager × Bool
unfolding is_writer next_epoch
release_writer region_id node m = elim (lookup region_id m.home_states) [
  | none ↦ (m, false)
  | some h ↦
      if is_writer node h.writer
      then (
        record m {
          home_states =
              modify region_id (λ h. next_epoch (record h { writer = none })) m.home_states;
          wait_queues =
              if is_empty (lookup region_id m.wait_queues)
              then map_remove region_id m.wait_queues
              else m.wait_queues;
        },
        true,
      )
      else (m, false)
]

unfoldable pub handle_invalidate_ack : ℕ → ℕ → CoherenceManager → CoherenceManager × Bool
unfolding drop_reader
handle_invalidate_ack region_id node m = (
  record m { home_states = modify region_id (drop_reader node) m.home_states },
  contains_key region_id m.home_states,
)

unfoldable pub add_reader : ℕ → ℕ → CoherenceManager → CoherenceManager × Bool
unfolding insert_reader
add_reader region_id node m = (
  record m { home_states = modify region_id (insert_reader node) m.home_states },
  contains_key region_id m.home_states,
)

unfoldable pub remove_reader : ℕ → ℕ → CoherenceManager → CoherenceManager × Bool
unfolding drop_reader
remove_reader region_id node m = elim (lookup region_id m.home_states) [
  | none ↦ (m, false)
  | some h ↦ (
    record m { home_states = modify region_id (drop_reader node) m.home_states },
    contains node h.readers,
  )
]

unfoldable pub get_epoch : ℕ → CoherenceManager → Option ℕ
get_epoch region_id m = Option.map (λ h. h.epoch) (lookup region_id m.home_states)

unfoldable pub bump_epoch : ℕ → CoherenceManager → CoherenceManager × Option ℕ
unfolding next_epoch
bump_epoch region_id m = (
  record m { home_states = modify region_id next_epoch m.home_states },
  Option.map (λ h. (h.epoch + 1) % 2 ^ 64) (lookup region_id m.home_states),
)

unfoldable pub is_expired : ℕ → Option WriterInfo → Bool
is_expired now none = false
is_expired now (some info) = ltb info.lease_deadline now

-- The loop of `check_lease_expiry`; `now` stands for every reading of the clock in it.
unfoldable pub expire_all :
    ℕ → List (ℕ × RegionHomeState) → List (ℕ × RegionHomeState) × List (ℕ × ℕ)
unfolding is_expired next_epoch holder_of
expire_all now [] = ([], [])
expire_all now ((region_id, h) ∷ rest) =
    let more = expire_all now rest in
    if is_expired now h.writer
    then (
      (region_id, next_epoch (record h { writer = none })) ∷ more.0,
      (region_id, holder_of h.writer) ∷ more.1,
    )
    else ((region_id, h) ∷ more.0, more.1)

unfoldable pub check_lease_expiry : ℕ → CoherenceManager → CoherenceManager × List (ℕ × ℕ)
unfolding expire_all
check_lease_expiry now m =
    let r = expire_all now m.home_states in (record m { home_states = r.0 }, r.1)

unfoldable pub writer_of : Option RegionHomeState → Option WriterInfo
writer_of none = none
writer_of (some h) = h.writer

unfoldable pub get_writer : ℕ → CoherenceManager → Option WriterInfo
unfolding writer_of
get_writer region_id m = writer_of (lookup region_id m.home_states)

unfoldable pub readers_of : Option RegionHomeState → List ℕ
readers_of none = []
readers_of (some h) = h.readers

unfoldable pub get_readers : ℕ → CoherenceManager → List ℕ
unfolding readers_of
get_readers region_id m = readers_of (lookup region_id m.home_states)
