-- ===== src/Core/Jetty/Table/Defaults.antt =====
-- The handles of the table of crates/ub-core/src/jetty.rs, and its default jetty.
use unibus_toy.Base.{
  ℕ, ◌+◌, ◌%◌, ◌^◌, ◌<◌, ◌≡◌, refl, ◌⊎◌, inl, inr, true, Option, none, some, ◌==◌, ==-refl,
  if◌then◌else◌, arith, Bool-cases, Option-cases, All, All-map,
}
use unibus_toy.Base.Assoc.{
  number_key, lookup as map_lookup, contains_key, contains-insert, contains-remove, insert-All,
  remove-All,
}
use unibus_toy.Core.Jetty.{Jetty, JettyConfig}
use unibus_toy.Core.Jetty.Table.{
  JettyTable, new, create, default_jetty, lookup, deregister, exchange,
}

-- Every handle that was given out is below the next one, and the default is one of the table.
pub record IsTable (t : JettyTable) : Type 0 where
  pub positive : 0 < t.next_handle
  pub fresh : All (λ (p : ℕ × Jetty). (0 < p.0) × (p.0 < t.next_handle)) t.entries
  pub default : (t.default_handle ≡ 0) ⊎ (contains_key t.default_handle t.entries ≡ true)

pub new-IsTable : (node_id : ℕ) (config : JettyConfig) → IsTable (new node_id config)
unfolding new
new-IsTable node_id config = record { positive = omega arith; fresh = tt; default = inl refl }

pub create-IsTable :
    (t : JettyTable) → IsTable t → t.next_handle + 1 < 2 ^ 32 → IsTable (create t).1
unfolding create exchange
create-IsTable t v room =
    let next : (t.next_handle + 1) % 2 ^ 32 ≡ t.next_handle + 1 = omega arith in
    rw next (record {
      positive = omega arith;
      fresh =
          insert-All (λ (p : ℕ × Jetty). (0 < p.0) × (p.0 < t.next_handle + 1)) t.next_handle _
            t.entries (All-map _ _ t.entries (λ p b. (b.0, omega (arith, b.1))) v.fresh)
            (v.positive, omega arith);
      default = inr (elim (Bool-cases (t.default_handle == 0)) [
        | inl first ↦
            rw (first, contains-insert t.next_handle t.next_handle)
              (rw (==-refl t.next_handle) refl)
        | inr set ↦
            rw (set, contains-insert t.next_handle t.default_handle) (ground (arith, v.default))
      ]);
    })

pub deregister-IsTable : (h : ℕ) (t : JettyTable) → IsTable t → IsTable (deregister h t).1
unfolding deregister exchange
deregister-IsTable h t v = elim (Option-cases (map_lookup h t.entries)) [
  | inl missing ↦ rw (missing, deregister) v
  | inr (j, found) ↦
      rw (found, deregister)
        (record {
          positive = v.positive;
          fresh = remove-All _ h t.entries v.fresh;
          default = ground (arith, v.default, contains-remove h t.default_handle t.entries);
        })
]

abbrev pub or_else : Option ℕ → ℕ → ℕ
or_else none h = h
or_else (some d) h = d

abbrev pub unless : ℕ → Option ℕ → Option ℕ
unless h none = none
unless h (some d) = if h == d then none else some d

-- The default jetty under the two operations that change the table.
pub record KeepsDefault (t : JettyTable) : Type 0 where
  pub created : default_jetty (create t).1 ≡ some (or_else (default_jetty t) t.next_handle)
  pub removed :
      (h : ℕ) (j : Jetty)
      → lookup h t ≡ some j
      → default_jetty (deregister h t).1 ≡ unless h (default_jetty t)

default_jetty-create :
    (t : JettyTable)
    → IsTable t
    → default_jetty (create t).1 ≡ some (or_else (default_jetty t) t.next_handle)
unfolding default_jetty create exchange
default_jetty-create t v = elim (Bool-cases (t.default_handle == 0)) [
  | inl unset ↦ rw (unset, contains-insert t.next_handle t.next_handle) (ground (arith, v.positive))
  | inr set ↦ rw (set, contains-insert t.next_handle t.default_handle) (ground (arith, v.default))
]

default_jetty-deregister :
    (h : ℕ) (j : Jetty) (t : JettyTable)
    → IsTable t
    → lookup h t ≡ some j
    → default_jetty (deregister h t).1 ≡ unless h (default_jetty t)
unfolding default_jetty deregister exchange lookup
default_jetty-deregister h j t v found = elim (Bool-cases (t.default_handle == h)) [
  | inl same ↦ rw (found, same, deregister, exchange) (ground arith)
  | inr other ↦
      rw (found, other, deregister, exchange, contains-remove h t.default_handle) (ground arith)
]

-- On a table whose handles are positive and below the next one, and whose default is unset or
-- registered, a new jetty becomes the default exactly when there is none, and removing a
-- registered jetty clears the default exactly when it is that one.
pub default_jetty-KeepsDefault : (t : JettyTable) → IsTable t → KeepsDefault t
default_jetty-KeepsDefault t v = record {
  created = default_jetty-create t v;
  removed = λ h j found. default_jetty-deregister h j t v found;
}
