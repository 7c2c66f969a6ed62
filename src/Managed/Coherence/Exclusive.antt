-- ===== src/Managed/Coherence/Exclusive.antt =====
-- The writer lock of a region (crates/ub-managed/src/coherence.rs) over a run of calls.
use unibus_toy.Base.{
  ℕ, ◌+◌, ◌*◌, ◌≤◌, ◌≡◌, refl, sym, ◌∙◌, inl, inr, true, false, ◌&&◌, Option, none, some, List, [],
  ◌∷◌, arith, leb, ◌==◌, Bool-cases, Option-cases, All,
}
use unibus_toy.Base.Assoc.{number_key, lookup, lookup-modify}
use unibus_toy.Managed.Coherence.{
  WriterInfo, CoherenceManager, denied, insert_reader, drop_reader, next_epoch, held_by_other,
  holder_of, set_writer, enqueue, acquire_writer, is_writer, release_writer, handle_invalidate_ack,
  add_reader, remove_reader, bump_epoch, is_expired, check_lease_expiry, writer_of, get_writer,
}
use unibus_toy.Managed.Coherence.Lease.{grant_eq, held_until, keeps_writer, expire_all-writer}
use unibus_toy.Managed.Coherence.Runs.{
  Call, acquire, release, invalidate_ack, reader_added, reader_removed, epoch_bumped,
  leases_checked, perform, perform_all, IsWithin, perform-writer_lease_ms,
}

abbrev Holds : ℕ → ℕ → ℕ → CoherenceManager → Type 0
Holds r a t m = held_until a t (get_writer r m) ≡ true

-- Who is granted the lock while `a` holds it is `a`.
granted_to_holder :
    (now n a t until : ℕ) (w : Option WriterInfo)
    → now ≤ t
    → held_until a t w ≡ true
    → held_by_other now n w ≡ false
    → t ≤ until
    → ((n == a) && leb t until) ≡ true
unfolding held_until held_by_other
granted_to_holder now n a t until none in_time holds mine long = absurd (ground arith)
granted_to_holder now n a t until (some info) in_time holds mine long = ground arith

acquire-Holds :
    (now later r a t k n : ℕ) (m : CoherenceManager)
    → now ≤ t
    → t ≤ later + m.writer_lease_ms * 1_000_000
    → Holds r a t m
    → Holds r a t (acquire_writer now later k n m).0
unfolding acquire_writer enqueue set_writer get_writer writer_of held_until held_by_other
acquire-Holds now later r a t k n m in_time long holds =
    elim (Option-cases (lookup k m.home_states)) [
      | inl missing ↦ rw (missing, acquire_writer) holds
      | inr (h, found) ↦ elim (Bool-cases (held_by_other now n h.writer)) [
        | inl other ↦ rw (found, acquire_writer, other) holds
        | inr mine ↦ elim (Bool-cases (k == r)) [
          | inr elsewhere ↦
              rw (found, acquire_writer, mine, grant_eq later k n h.epoch h.readers m, lookup-modify k r _ m.home_states, elsewhere) holds
          | inl here ↦
              let e : k ≡ r = ground arith in
              let mine' : held_by_other now n (get_writer r m) ≡ false = rw (sym e, found) mine in
              rw
                (found, acquire_writer, mine, grant_eq later k n h.epoch h.readers m, lookup-modify k r _ m.home_states, here, sym e, found)
                (granted_to_holder now n a t (later + m.writer_lease_ms * 1_000_000)
                  (get_writer r m) in_time holds mine' long)
        ]
      ]
    ]

other_holds :
    (now a b t : ℕ) (w : Option WriterInfo)
    → (b == a) ≡ false
    → now ≤ t
    → held_until a t w ≡ true
    → (held_by_other now b w ≡ true) × (holder_of w ≡ a)
unfolding held_until held_by_other holder_of
other_holds now a b t none differ in_time holds = absurd (ground arith)
other_holds now a b t (some info) differ in_time holds = (ground arith, ground arith)

release_is_own :
    (n a t : ℕ) (w : Option WriterInfo)
    → held_until a t w ≡ true
    → is_writer n w ≡ true
    → (n == a) ≡ false
    → ⊥
unfolding held_until is_writer
release_is_own n a t none holds theirs other = absurd (ground arith)
release_is_own n a t (some info) holds theirs other = absurd (ground arith)

not_expired :
    (now a t : ℕ) (w : Option WriterInfo)
    → now ≤ t
    → held_until a t w ≡ true
    → is_expired now w ≡ false
unfolding held_until is_expired
not_expired now a t none in_time holds = refl
not_expired now a t (some info) in_time holds = ground arith

release-Holds :
    (r a t k n : ℕ) (m : CoherenceManager)
    → ((k == r) && (n == a)) ≡ false
    → Holds r a t m
    → Holds r a t (release_writer k n m).0
unfolding release_writer get_writer writer_of held_until is_writer
release-Holds r a t k n m other holds = elim (Option-cases (lookup k m.home_states)) [
  | inl missing ↦ rw (missing, release_writer) holds
  | inr (h, found) ↦ elim (Bool-cases (is_writer n h.writer)) [
    | inr ignored ↦ rw (found, release_writer, ignored) holds
    | inl released ↦ elim (Bool-cases (k == r)) [
      | inr elsewhere ↦
          rw (found, release_writer, released, lookup-modify k r _ m.home_states, elsewhere) holds
      | inl here ↦
          let e : k ≡ r = ground arith in
          let theirs : is_writer n (get_writer r m) ≡ true = rw (sym e, found) released in
          absurd (release_is_own n a t (get_writer r m) holds theirs (ground arith))
    ]
  ]
]

check-Holds :
    (now r a t : ℕ) (m : CoherenceManager)
    → now ≤ t
    → Holds r a t m
    → Holds r a t (check_lease_expiry now m).0
unfolding check_lease_expiry get_writer
check-Holds now r a t m in_time holds =
    rw (expire_all-writer now r m.home_states, not_expired now a t (get_writer r m) in_time holds)
      holds

perform-Holds :
    (lease r a t : ℕ) (c : ℕ × Call) (m : CoherenceManager)
    → m.writer_lease_ms ≡ lease
    → IsWithin lease r a t c
    → Holds r a t m
    → Holds r a t (perform c.0 c.1 m)
unfolding perform get_writer handle_invalidate_ack add_reader remove_reader bump_epoch drop_reader
    insert_reader next_epoch
perform-Holds lease r a t (now, acquire later k n) m e within holds =
    acquire-Holds now later r a t k n m within.0 (rw e within.1) holds
perform-Holds lease r a t (now, release k n) m e within holds =
    release-Holds r a t k n m within.1 holds
perform-Holds lease r a t (now, invalidate_ack k n) m e within holds =
    rw (keeps_writer r k (drop_reader n) m.home_states (λ h. refl)) holds
perform-Holds lease r a t (now, reader_added k n) m e within holds =
    rw (keeps_writer r k (insert_reader n) m.home_states (λ h. refl)) holds
perform-Holds lease r a t (now, reader_removed k n) m e within holds =
    elim (Option-cases (lookup k m.home_states)) [
      | inl missing ↦ rw (missing, perform, remove_reader) holds
      | inr (h, found) ↦
          rw
            (
              found,
              perform,
              remove_reader,
              keeps_writer r k (drop_reader n) m.home_states (λ h. refl),
            )
            holds
    ]
perform-Holds lease r a t (now, epoch_bumped k) m e within holds =
    rw (keeps_writer r k next_epoch m.home_states (λ h. refl)) holds
perform-Holds lease r a t (now, leases_checked) m e within holds =
    check-Holds now r a t m within holds

perform_all-Holds :
    (lease r a t : ℕ) (cs : List (ℕ × Call)) (m : CoherenceManager)
    → m.writer_lease_ms ≡ lease
    → All (IsWithin lease r a t) cs
    → Holds r a t m
    → Holds r a t (perform_all cs m)
unfolding perform_all
perform_all-Holds lease r a t [] m e within holds = holds
perform_all-Holds lease r a t ((now, c) ∷ cs) m e within holds =
    perform_all-Holds lease r a t cs (perform now c m) (perform-writer_lease_ms now c m ∙ e)
      within.1 (perform-Holds lease r a t (now, c) m e within.0 holds)

denied_while_held :
    (now later r a b t : ℕ) (m : CoherenceManager)
    → (b == a) ≡ false
    → now ≤ t
    → Holds r a t m
    → (acquire_writer now later r b m).1 ≡ denied r a
unfolding acquire_writer get_writer writer_of held_until held_by_other holder_of
denied_while_held now later r a b t m differ in_time holds =
    elim (Option-cases (lookup r m.home_states)) [
      | inl missing ↦ absurd (ground arith)
      | inr (h, found) ↦
          let theirs : held_until a t h.writer ≡ true = rw found at holds in
          let (other, holder) = other_holds now a b t h.writer differ in_time theirs in
          rw (found, acquire_writer, other, holder) refl
    ]

-- When a node `a` holds the writer lock of a region with a lease until the time `t`, then after
-- any run of calls on regions that stay registered, all up to `t`, none of which is the release
-- by `a` or sets a lease that ends before `t`, `a` holds the lock until `t` still, and another
-- node that asks for it up to `t` is denied.
pub lease_is_exclusive :
    (lease r a b t now later : ℕ) (cs : List (ℕ × Call)) (m : CoherenceManager)
    → m.writer_lease_ms ≡ lease
    → held_until a t (get_writer r m) ≡ true
    → All (IsWithin lease r a t) cs
    → (b == a) ≡ false
    → now ≤ t
    → (held_until a t (get_writer r (perform_all cs m)) ≡ true)
      × ((acquire_writer now later r b (perform_all cs m)).1 ≡ denied r a)
lease_is_exclusive lease r a b t now later cs m e holds within differ in_time =
    let still = perform_all-Holds lease r a t cs m e within holds in
    (still, denied_while_held now later r a b t (perform_all cs m) differ in_time still)
