-- ===== src/Managed/Coherence/Runs.antt =====
-- Runs of calls to the `CoherenceManager` (crates/ub-managed/src/coherence.rs), each at its time.
use unibus_toy.Base.{
  ℕ, ◌+◌, ◌*◌, ◌≤◌, ◌≡◌, refl, inl, inr, false, ◌&&◌, List, [], ◌∷◌, ◌==◌, Bool-cases, Option-cases,
}
use unibus_toy.Base.Assoc.{number_key, lookup}
use unibus_toy.Managed.Coherence.Lease.{grant_eq}
use unibus_toy.Managed.Coherence.{
  CoherenceManager, held_by_other, set_writer, enqueue, acquire_writer, is_writer, release_writer,
  handle_invalidate_ack, add_reader, remove_reader, bump_epoch, check_lease_expiry,
}

-- The calls that change the state of regions which stay registered.
pub data Call : Type 0 where
  acquire : ℕ → ℕ → ℕ → Call
  release invalidate_ack reader_added reader_removed : ℕ → ℕ → Call
  epoch_bumped : ℕ → Call
  leases_checked : Call

unfoldable pub perform : ℕ → Call → CoherenceManager → CoherenceManager
perform now (acquire later r n) m = (acquire_writer now later r n m).0
perform now (release r n) m = (release_writer r n m).0
perform now (invalidate_ack r n) m = (handle_invalidate_ack r n m).0
perform now (reader_added r n) m = (add_reader r n m).0
perform now (reader_removed r n) m = (remove_reader r n m).0
perform now (epoch_bumped r) m = (bump_epoch r m).0
perform now leases_checked m = (check_lease_expiry now m).0

unfoldable pub perform_all : List (ℕ × Call) → CoherenceManager → CoherenceManager
perform_all [] m = m
perform_all ((now, c) ∷ cs) m = perform_all cs (perform now c m)

-- A call at a time up to `t` that is not the release of `r` by `a`, and does not set a shorter
-- lease than up to `t`.
abbrev pub IsWithin : ℕ → ℕ → ℕ → ℕ → ℕ × Call → Type 0
IsWithin lease r a t (now, acquire later k n) = (now ≤ t) × (t ≤ later + lease * 1_000_000)
IsWithin lease r a t (now, release k n) = (now ≤ t) × (((k == r) && (n == a)) ≡ false)
IsWithin lease r a t (now, c) = now ≤ t

pub perform-writer_lease_ms :
    (now : ℕ) (c : Call) (m : CoherenceManager)
    → (perform now c m).writer_lease_ms ≡ m.writer_lease_ms
unfolding perform acquire_writer enqueue set_writer release_writer handle_invalidate_ack add_reader
    remove_reader bump_epoch check_lease_expiry
perform-writer_lease_ms now (acquire later r n) m = elim (Option-cases (lookup r m.home_states)) [
  | inl missing ↦ rw (missing, perform, acquire_writer) refl
  | inr (h, found) ↦ elim (Bool-cases (held_by_other now n h.writer)) [
    | inl other ↦ rw (found, perform, acquire_writer, other) refl
    | inr mine ↦
        rw (found, perform, acquire_writer, mine, grant_eq later r n h.epoch h.readers m) refl
  ]
]
perform-writer_lease_ms now (release r n) m = elim (Option-cases (lookup r m.home_states)) [
  | inl missing ↦ rw (missing, perform, release_writer) refl
  | inr (h, found) ↦ elim (Bool-cases (is_writer n h.writer)) [
    | inl theirs ↦ rw (found, perform, release_writer, theirs) refl
    | inr other ↦ rw (found, perform, release_writer, other) refl
  ]
]
perform-writer_lease_ms now (invalidate_ack r n) m = refl
perform-writer_lease_ms now (reader_added r n) m = refl
perform-writer_lease_ms now (reader_removed r n) m = elim (Option-cases (lookup r m.home_states)) [
  | inl missing ↦ rw (missing, perform, remove_reader) refl
  | inr (h, found) ↦ rw (found, perform, remove_reader) refl
]
perform-writer_lease_ms now (epoch_bumped r) m = refl
perform-writer_lease_ms now leases_checked m = refl
