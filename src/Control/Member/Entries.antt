-- ===== src/Control/Member/Entries.antt =====
-- The entries of the member table (crates/ub-control/src/member.rs) under its operations.
use unibus_toy.Base.{
  ℕ, ◌≡◌, refl, inl, inr, Option, none, some, List, [], ◌∷◌, ◌++◌, ◌==◌, ==_iff, if◌then◌else◌,
  arith, Bool-cases, Option-cases,
}
use mathlib.Core.Option
use mathlib.Core.Path.{subst}
use unibus_toy.Control.Member.{NodeInfo, MemberTable, find, alter, merge, upsert_nodes, upsert}

pub find-alter :
    (k q : ℕ) (f : NodeInfo → NodeInfo) (ns : List NodeInfo)
    → ((n : NodeInfo) → (f n).node_id ≡ n.node_id)
    → find q (alter k f ns) ≡ (if k == q then Option.map f (find q ns) else find q ns)
unfolding find alter
find-alter k q f [] kept = ground arith
find-alter k q f (n ∷ ns) kept = elim (Bool-cases (n.node_id == k)) [
  | inl same ↦ simp (same, kept n) (ground arith)
  | inr other ↦ rw (other, find-alter k q f ns kept) (ground arith)
]

find-append :
    (q : ℕ) (n : NodeInfo) (ns : List NodeInfo)
    → find n.node_id ns ≡ none
    → find q (ns ++ (n ∷ [])) ≡ (if n.node_id == q then some n else find q ns)
unfolding find
find-append q n [] h = refl
find-append q n (m ∷ ns) h = elim (Bool-cases (m.node_id == n.node_id)) [
  | inl same ↦ cc (rw same at h)
  | inr other ↦ rw (find-append q n ns (rw other at h)) (ground arith)
]

-- The entry of a node after an `upsert` of it: what was sent, but for the time it was last seen,
-- which stays.
abbrev pub upserted : NodeInfo → Option NodeInfo → NodeInfo
upserted info none = info
upserted info (some existing) = record info {
  node_id = existing.node_id;
  last_seen = existing.last_seen;
}

merge-node_id : (info n : NodeInfo) → (merge info n).node_id ≡ n.node_id
unfolding merge
merge-node_id info n = refl

pub find-upsert :
    (q : ℕ) (info : NodeInfo) (t : MemberTable)
    → find q (upsert info t).nodes
      ≡ (if info.node_id == q then some (upserted info (find q t.nodes)) else find q t.nodes)
unfolding upsert upsert_nodes merge
find-upsert q info t = elim (Option-cases (find info.node_id t.nodes)) [
  | inl new ↦
      simp (new, upsert_nodes, find-append q info t.nodes new)
        (elim (Bool-cases (info.node_id == q)) [
          | inl same ↦
              let absent : find q t.nodes ≡ none =
                subst (λ (k : ℕ). find k t.nodes ≡ none) ((==_iff info.node_id q).0 same) new in
              simp (same, absent)
          | inr other ↦ simp other
        ])
  | inr (existing, e) ↦
      simp (e, upsert_nodes, find-alter info.node_id q (merge info) t.nodes (merge-node_id info))
        (elim (Bool-cases (info.node_id == q)) [
          | inl same ↦
              let there : find q t.nodes ≡ some existing =
                subst (λ (k : ℕ). find k t.nodes ≡ some existing) ((==_iff info.node_id q).0 same)
                  e in
              simp (same, there, merge)
          | inr other ↦ simp other
        ])
]
