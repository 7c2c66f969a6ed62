-- ===== src/Managed/Coherence/Lease.antt =====
-- The writer lock of a region (crates/ub-managed/src/coherence.rs): one request for it.
use unibus_toy.Base.{
  ℕ, ◌+◌, ◌*◌, ◌≡◌, refl, ◌∙◌, inl, inr, Bool, true, false, not, ◌&&◌, ◌++◌, Option, none, some, List, [], ◌∷◌, leb, ◌==◌,
  if◌then◌else◌, ==-refl, Bool-cases, Option-cases,
}
use unibus_toy.Base.Assoc.{number_key, lookup, modify, lookup-modify, lookup-insert}
use unibus_toy.Managed.Coherence.{
  WriterInfo, RegionHomeState, CoherenceManager, granted, denied, next_epoch, held_by_other,
  holder_of, set_writer, grant, enqueue, queue_or_empty, AcquireWriterResult, acquire_writer, is_expired, expire_all, writer_of, get_writer,
  readers_of, get_readers,
}

-- The node `a` holds the lock, and its lease runs until `t` at least.
unfoldable pub held_until : ℕ → ℕ → Option WriterInfo → Bool
held_until a t none = false
held_until a t (some info) = (info.writer_node_id == a) && leb t info.lease_deadline

pub keeps_writer :
    (r k : ℕ) (f : RegionHomeState → RegionHomeState) (l : List (ℕ × RegionHomeState))
    → ((h : RegionHomeState) → (f h).writer ≡ h.writer)
    → writer_of (lookup r (modify k f l)) ≡ writer_of (lookup r l)
unfolding writer_of
keeps_writer r k f l same = rw (lookup-modify k r f l) (elim (Bool-cases (k == r)) [
  | inl here ↦ elim (Option-cases (lookup r l)) [
    | inl missing ↦ rw (here, missing) refl
    | inr (h, found) ↦ rw (here, found) (same h)
  ]
  | inr elsewhere ↦ rw elsewhere refl
])

-- The lock of a region that is not expired stays, and the others are taken back.
pub expire_all-writer :
    (now r : ℕ) (l : List (ℕ × RegionHomeState))
    → writer_of (lookup r (expire_all now l).0)
      ≡ (if is_expired now (writer_of (lookup r l)) then none else writer_of (lookup r l))
unfolding expire_all is_expired writer_of lookup next_epoch
expire_all-writer now r [] = refl
expire_all-writer now r ((k, h) ∷ l) = elim (Bool-cases (is_expired now h.writer)) [
  | inl old ↦ elim (Bool-cases (k == r)) [
    | inl here ↦ rw (old, here) (rw old refl)
    | inr elsewhere ↦ rw (old, elsewhere) (expire_all-writer now r l)
  ]
  | inr live ↦ elim (Bool-cases (k == r)) [
    | inl here ↦ rw (live, here) (rw live refl)
    | inr elsewhere ↦ rw (live, elsewhere) (expire_all-writer now r l)
  ]
]

-- Readers make no difference.
pub grant_eq :
    (later r n epoch : ℕ) (readers : List ℕ) (m : CoherenceManager)
    → grant later r n epoch readers m ≡ (set_writer later r n m, granted r epoch)
unfolding grant
grant_eq later r n epoch [] m = refl
grant_eq later r n epoch (x ∷ readers) m = refl

-- A lock that was taken, as to a node `n` that asks at `now`: another node has it, with a lease
-- that has not run out.
abbrev pub is_barred : ℕ → ℕ → WriterInfo → Bool
is_barred now n info = leb now info.lease_deadline && not (info.writer_node_id == n)

-- What a request at `now` is answered, by the lock that there is.
abbrev pub answer : ℕ → ℕ → ℕ → ℕ → Option WriterInfo → AcquireWriterResult
answer now r n epoch none = granted r epoch
answer now r n epoch (some info) =
    if is_barred now n info then denied r info.writer_node_id else granted r epoch

-- The lock after it, where a lease that is given ends at `deadline`.
abbrev pub lock_after : ℕ → ℕ → ℕ → Option WriterInfo → WriterInfo
lock_after now n deadline none = record { writer_node_id = n; lease_deadline = deadline }
lock_after now n deadline (some info) =
    if is_barred now n info
    then info
    else record { writer_node_id = n; lease_deadline = deadline }

-- The nodes that wait after it.
abbrev pub queue_after : ℕ → ℕ → Option WriterInfo → Option (List ℕ) → Option (List ℕ)
queue_after now n none q = q
queue_after now n (some info) q =
    if is_barred now n info then some (queue_or_empty q ++ (n ∷ [])) else q

granted_writer :
    (now later r n : ℕ) (m : CoherenceManager) (h : RegionHomeState)
    → lookup r m.home_states ≡ some h
    → held_by_other now n h.writer ≡ false
    → let o = acquire_writer now later r n m in
      (o.1 ≡ granted r h.epoch)
      × (get_writer r o.0 ≡ some (record {
          writer_node_id = n;
          lease_deadline = later + m.writer_lease_ms * 1_000_000;
        }))
      × (get_readers r o.0 ≡ h.readers)
      × (lookup r o.0.wait_queues ≡ lookup r m.wait_queues)
unfolding acquire_writer set_writer get_writer get_readers writer_of readers_of
granted_writer now later r n m h found mine =
    rw (found, acquire_writer, mine, grant_eq later r n h.epoch h.readers m)
      (
        refl,
        rw (lookup-modify r r _ m.home_states, ==-refl r, found) refl,
        rw (lookup-modify r r _ m.home_states, ==-refl r, found) refl,
        refl,
      )

denied_writer :
    (now later r n : ℕ) (m : CoherenceManager) (h : RegionHomeState)
    → lookup r m.home_states ≡ some h
    → held_by_other now n h.writer ≡ true
    → let o = acquire_writer now later r n m in
      (o.1 ≡ denied r (holder_of h.writer))
      × (get_writer r o.0 ≡ h.writer)
      × (get_readers r o.0 ≡ h.readers)
      × (lookup r o.0.wait_queues ≡ some (queue_or_empty (lookup r m.wait_queues) ++ (n ∷ [])))
unfolding acquire_writer enqueue get_writer get_readers writer_of readers_of
denied_writer now later r n m h found other =
    rw (found, acquire_writer, other)
      (
        refl,
        rw found refl,
        rw found refl,
        rw (lookup-insert r r (queue_or_empty (lookup r m.wait_queues) ++ (n ∷ [])) m.wait_queues, ==-refl r) refl,
      )

-- placeholder
pub acquire_writer_lem :
    (now later r n : ℕ) (m : CoherenceManager) (h : RegionHomeState)
    → lookup r m.home_states ≡ some h
    → let o = acquire_writer now later r n m in
      (o.1 ≡ answer now r n h.epoch h.writer)
      × (get_writer r o.0
          ≡ some (lock_after now n (later + m.writer_lease_ms * 1_000_000) h.writer))
      × (get_readers r o.0 ≡ h.readers)
      × (lookup r o.0.wait_queues ≡ queue_after now n h.writer (lookup r m.wait_queues))
unfolding held_by_other holder_of
acquire_writer_lem now later r n m h found = elim (Option-cases h.writer) [
  | inl free ↦
      let g = granted_writer now later r n m h found (simp free refl) in simp free g
  | inr (info, taken) ↦ elim (Bool-cases (is_barred now n info)) [
    | inl barred ↦
        let d = denied_writer now later r n m h found (simp (taken, barred) refl) in
        (d.0 ∙ simp (taken, barred) refl, d.1 ∙ simp (taken, barred) refl, d.2, d.3 ∙ simp (taken, barred) refl)
    | inr mine ↦
        let g = granted_writer now later r n m h found (simp (taken, mine) refl) in
        (g.0 ∙ simp (taken, mine) refl, g.1 ∙ simp (taken, mine) refl, g.2, g.3 ∙ simp (taken, mine) refl)
  ]
]
