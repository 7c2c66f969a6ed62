-- ===== src/Dataplane/Holds.antt =====
-- The references to regions that the handlers of crates/ub-dataplane/src/lib.rs take and give back.
use unibus_toy.Base.{
  ℕ, ◌+◌, ◌-◌, ◌%◌, ◌^◌, ◌<◌, ◌≡◌, refl, ap, ◌∙◌, inl, inr, true, false, some, none, List, [], ◌∷◌,
  arith, ◌==◌, Bool-cases, Option-cases, All,
}
use unibus_toy.Base.Assoc.{number_key, lookup as map_lookup, modify, ◌≟◌}
use mathlib.Core.Path.{subst}
use unibus_toy.Core.Mr.{MrEntry, MrTable, is_active, try_inflight_inc, inflight_dec, lookup}
use unibus_toy.Dataplane.State.{DataPlaneEngine, hold, let_go, with_table}

-- A key that no entry has.
abbrev IsNew : ℕ → List (ℕ × MrEntry) → Type 0
IsNew k m = All (λ (p : ℕ × MrEntry). (p.0 == k) ≡ false) m

abbrev Distinct : List (ℕ × MrEntry) → Type 0
Distinct [] = Unit
Distinct (p ∷ m) = IsNew p.0 m × Distinct m

-- A table with one entry to a handle, whose counts of references fit their width.
pub record IsCounted (t : MrTable) : Type 0 where
  pub handles : Distinct t.entries
  pub counts : All (λ (p : ℕ × MrEntry). p.1.inflight_refs < 2 ^ 64) t.entries

modify_new : (k : ℕ) (f : MrEntry → MrEntry) (m : List (ℕ × MrEntry)) → IsNew k m → modify k f m ≡ m
unfolding modify
modify_new k f [] h = refl
modify_new k f ((j, w) ∷ m) h = rw (h.0, modify_new k f m h.1)

back :
    (e : MrEntry)
    → e.inflight_refs < 2 ^ 64
    → is_active e.state ≡ true
    → (inflight_dec (try_inflight_inc e).1).1 ≡ e
unfolding inflight_dec try_inflight_inc
back e small active =
    let n : ((e.inflight_refs + 1) % 2 ^ 64 + (2 ^ 64 - 1)) % 2 ^ 64 ≡ e.inflight_refs =
      omega (arith, small) in
    rw active (ap (λ n. record e { inflight_refs = n }) n)

-- An entry that was held and let go of is as it was.
modify_back :
    (k : ℕ) (e : MrEntry) (m : List (ℕ × MrEntry))
    → Distinct m
    → All (λ (p : ℕ × MrEntry). p.1.inflight_refs < 2 ^ 64) m
    → map_lookup k m ≡ some e
    → is_active e.state ≡ true
    → modify k
        (λ (x : MrEntry). (inflight_dec x).1)
        (modify k (λ (x : MrEntry). (try_inflight_inc x).1) m)
      ≡ m
unfolding modify map_lookup
modify_back k e [] distinct small found active = refl
modify_back k e ((j, w) ∷ m) distinct small found active = elim (Bool-cases (j ≟ k)) [
  | inl same ↦
      let here : w ≡ e = cc (rw same at found) in
      let key : j ≡ k = ground arith in
      let new : IsNew k m = subst (λ i. IsNew i m) key distinct.0 in
      rw (
        same,
        modify_new k (λ (x : MrEntry). (try_inflight_inc x).1) m new,
        modify_new k (λ (x : MrEntry). (inflight_dec x).1) m new,
        back w small.0 (rw here active),
      )
  | inr other ↦ rw (other, modify_back k e m distinct.1 small.1 (rw other at found) active)
]

held_back :
    (h : ℕ) (e : MrEntry) (t : MrTable)
    → IsCounted t
    → (hold h t).0 ≡ some e
    → record (hold h t).1 {
      entries = modify h (λ (x : MrEntry). (inflight_dec x).1) (hold h t).1.entries;
    }
      ≡ t
unfolding hold lookup try_inflight_inc
held_back h e t v held = elim (Option-cases (map_lookup h t.entries)) [
  | inl missing ↦ cc (rw (missing, hold) at held)
  | inr (x, found) ↦ elim (Bool-cases (is_active x.state)) [
    | inl active ↦
        rw (found, active, hold)
          (ap (λ (es : List (ℕ × MrEntry)). record t { entries = es })
            (modify_back h x t.entries v.handles v.counts found active))
    | inr gone ↦ cc (rw (found, gone, hold) at held)
  ]
]

module _ {F Sender : Type 0} where
  -- What serving a request leaves alone.
  abbrev pub Spared : DataPlaneEngine F Sender → DataPlaneEngine F Sender → Type 0
  Spared g r = r ≡ record g {
    mr_table = r.mr_table;
    devices = r.devices;
    jetty_table = r.jetty_table;
    transport = r.transport;
    alive = r.alive;
  }

  -- The handler let go of the region that the engine `g` holds, if it ended.
  abbrev pub GivesBack : ℕ → DataPlaneEngine F Sender → DataPlaneEngine F Sender → Type 0
  GivesBack handle g r = (r.alive ≡ true → r.mr_table ≡ (let_go handle g).mr_table) × Spared g r

  abbrev pub Serves : DataPlaneEngine F Sender → DataPlaneEngine F Sender → Type 0
  Serves g r = (r.alive ≡ true → r.mr_table ≡ g.mr_table) × Spared g r

  pub held-Serves :
      (h : ℕ) (g other : DataPlaneEngine F Sender)
      (k : MrEntry → DataPlaneEngine F Sender → DataPlaneEngine F Sender)
      → IsCounted g.mr_table
      → Serves g other
      → ((e : MrEntry) (g' : DataPlaneEngine F Sender) → GivesBack h g' (k e g'))
      → Serves g (elim (hold h g.mr_table).0 [
        | none ↦ other
        | some e ↦ k e (with_table (hold h g.mr_table).1 g)
      ])
  unfolding let_go with_table
  held-Serves h g other k v same gives = elim (Option-cases (hold h g.mr_table).0) [
    | inl nothing ↦ rw nothing same
    | inr (e, held) ↦
        let ends = gives e (with_table (hold h g.mr_table).1 g) in
        let whole = held_back h e g.mr_table v held in
        rw held ((λ live. ends.0 live ∙ whole), ends.1)
  ]
