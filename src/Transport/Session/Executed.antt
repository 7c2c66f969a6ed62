-- ===== src/Transport/Session/Executed.antt =====
-- The records of executed frames (crates/ub-transport/src/session.rs).
use unibus_toy.Base.{
  ℕ, ◌≡◌, refl, sym, inl, inr, Bool, true, some, List, [], ◌∷◌, ◌++◌, arith, ◌==◌, ==-refl,
  Bool-cases, Option-cases,
}
use unibus_toy.Transport.Session.State.{ReliableSession}
use unibus_toy.Transport.Session.Receiving.{
  mark_record, any_executed, trim, mark_executed, is_executed,
}

marked_record :
    (seq : ℕ) (rs rs' : List (ℕ × Bool))
    → mark_record seq rs ≡ some rs'
    → any_executed seq rs' ≡ true
unfolding mark_record any_executed
marked_record seq [] rs' e = cc e
marked_record seq ((s, b) ∷ rs) rs' e = elim (Bool-cases (s == seq)) [
  | inl same ↦ let done : (s, true) ∷ rs ≡ rs' = cc (rw same at e) in rw (sym done, same) refl
  | inr other ↦ elim (Option-cases (mark_record seq rs)) [
    | inl missing ↦ cc (rw (other, missing) at e)
    | inr (marked, found) ↦
        let done : (s, b) ∷ marked ≡ rs' = cc (rw (other, found) at e) in
        rw (sym done, other) (marked_record seq rs marked found)
  ]
]

newest : (seq : ℕ) (rs : List (ℕ × Bool)) → any_executed seq (rs ++ ((seq, true) ∷ [])) ≡ true
unfolding any_executed
newest seq [] = rw (==-refl seq) refl
newest seq ((s, b) ∷ rs) = ground (arith, newest seq rs)

-- The newest record stays.
trimmed :
    (seq : ℕ) (rs : List (ℕ × Bool)) → any_executed seq (trim (rs ++ ((seq, true) ∷ []))) ≡ true
unfolding trim any_executed
trimmed seq [] = rw (==-refl seq) refl
trimmed seq ((s, b) ∷ rs) = ground (arith, trimmed seq rs, newest seq rs)

module _ {F : Type 0} where
  pub is_executed-mark_executed :
      (seq : ℕ) (s : ReliableSession F) → is_executed (mark_executed seq s) seq ≡ true
  unfolding is_executed mark_executed
  is_executed-mark_executed seq s = elim (Option-cases (mark_record seq s.execution_records)) [
    | inl missing ↦ rw (missing, mark_executed) (trimmed seq s.execution_records)
    | inr (rs, found) ↦ rw (found, mark_executed) (marked_record seq s.execution_records rs found)
  ]
