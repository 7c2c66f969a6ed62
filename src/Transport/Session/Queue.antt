-- ===== src/Transport/Session/Queue.antt =====
-- The order of the retransmit queue of a session (crates/ub-transport/src/session.rs).
use unibus_toy.Base.{
  ℕ, suc, ◌+◌, ◌%◌, ◌^◌, ◌≤◌, ◌<◌, ◌≡◌, refl, inl, inr, Bool, not, ◌&&◌, some, List, [], ◌∷◌, ◌++◌,
  arith, ◌==◌, Bool-cases, Option-cases,
}
use mathlib.Core.Path.{subst}
use unibus_toy.Transport.Session.State.{ReliableSession, RetransmitEntry}
use unibus_toy.Transport.Session.Sending.{assign_seq, remove_request, complete_request}

abbrev Queue : Type 0
Queue = List RetransmitEntry

-- The numbers rise from `lo` on, and end below `hi`.
abbrev pub Rises : ℕ → List RetransmitEntry → ℕ → Type 0
Rises lo [] hi = lo ≤ hi
Rises lo (e ∷ q) hi = (lo ≤ e.seq) × Rises (suc e.seq) q hi

pub Rises-le : (lo : ℕ) (q : List RetransmitEntry) (hi : ℕ) → Rises lo q hi → lo ≤ hi
Rises-le lo [] hi h = h
Rises-le lo (e ∷ q) hi h = omega (arith, Rises-le (suc e.seq) q hi h.1)

pub Rises-lower :
    (lo lo' : ℕ) (q : List RetransmitEntry) (hi : ℕ) → lo ≤ lo' → Rises lo' q hi → Rises lo q hi
Rises-lower lo lo' [] hi p h = omega arith
Rises-lower lo lo' (e ∷ q) hi p h = (omega arith, h.1)

-- A new entry with the number `hi` goes to the end.
Rises-append :
    (lo : ℕ) (q : List RetransmitEntry) (hi : ℕ) (e : RetransmitEntry)
    → Rises lo q hi
    → e.seq ≡ hi
    → Rises lo (q ++ (e ∷ [])) (hi + 1)
Rises-append lo [] hi e h n = (omega arith, omega arith)
Rises-append lo (x ∷ q) hi e h n = (h.0, Rises-append (suc x.seq) q hi e h.1 n)

pub Rises-skip :
    (lo : ℕ) (e : RetransmitEntry) (q : List RetransmitEntry) (hi : ℕ)
    → Rises lo (e ∷ q) hi
    → Rises lo q hi
Rises-skip lo e q hi h = Rises-lower lo (suc e.seq) q hi (omega arith) h.1

Rises-remove_request :
    (opaque lo hi : ℕ) (q q' : List RetransmitEntry)
    → Rises lo q hi
    → remove_request opaque q ≡ some q'
    → Rises lo q' hi
unfolding remove_request
Rises-remove_request opaque lo hi [] q' h e = cc
Rises-remove_request opaque lo hi (x ∷ q) q' h e =
    elim (Bool-cases ((x.opaque == opaque) && not x.is_fire_and_forget)) [
      | inl this ↦
          let p : q ≡ q' = cc (rw this at e) in
          subst (λ z. Rises lo z hi) p (Rises-skip lo x q hi h)
      | inr other ↦ elim (Option-cases (remove_request opaque q)) [
        | inl no_rest ↦ absurd (ground arith)
        | inr (rest, found) ↦
            let p : x ∷ rest ≡ q' = cc (rw (other, found) at e) in
            subst (λ z. Rises lo z hi) p
              (h.0, Rises-remove_request opaque (suc x.seq) hi q rest h.1 found)
      ]
    ]

module _ {F : Type 0} where
  abbrev pub IsOrdered : ReliableSession F → Type 0
  IsOrdered s = Rises 1 s.retransmit_queue s.next_seq

  -- If the numbers in the retransmit queue rise and stay below the next number, and that is not
  -- about to wrap, they still do after a frame is numbered and queued.
  pub assign_seq-IsOrdered :
      (sent armed : ℕ) (s : ReliableSession F) (frame : List ℕ) (ff : Bool) (opaque : ℕ)
      → IsOrdered s
      → s.next_seq + 1 < 2 ^ 64
      → IsOrdered (assign_seq sent armed s frame ff opaque).0
  unfolding assign_seq
  assign_seq-IsOrdered sent armed s frame ff opaque h room =
      let e : (s.next_seq + 1) % 2 ^ 64 ≡ s.next_seq + 1 = omega arith in
      rw e (Rises-append 1 s.retransmit_queue s.next_seq _ h refl)

  -- If the numbers in the retransmit queue rise and stay below the next number, they still do
  -- after a request is completed, found or not.
  pub complete_request-IsOrdered :
      (opaque : ℕ) (s : ReliableSession F) → IsOrdered s → IsOrdered (complete_request opaque s).0
  unfolding complete_request
  complete_request-IsOrdered opaque s h =
      elim (Option-cases (remove_request opaque s.retransmit_queue)) [
        | inl missing ↦ rw (missing, complete_request) h
        | inr (q, found) ↦
            rw (found, complete_request)
              (Rises-remove_request opaque 1 s.next_seq s.retransmit_queue q h found)
      ]
