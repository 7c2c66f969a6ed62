-- ===== src/Core/Mr/Covering.antt =====
-- The search of crates/ub-core/src/mr.rs for the region that an address lies in.
use unibus_toy.Base.{
  ℕ, ◌+◌, ◌-◌, ◌%◌, ◌^◌, ◌≤◌, ◌<◌, ◌≡◌, sym, ◌∙◌, ◌↔◌, ◌⊎◌, inl, inr, true, ◌&&◌, some, List, [],
  ◌∷◌, arith, ltb, leb, ◌==◌, Bool-cases, All,
}
use unibus_toy.Base.Assoc.{number_key, lookup, ◌≟◌, lookup-All}
use mathlib.Core.Path.{subst}
use unibus_toy.Core.Addr
use unibus_toy.Core.Addr.Fields.{fields-new}
use unibus_toy.Core.Mr.{MrEntry, covers, find_covering}

-- Where an entry lies: the base address is that of its device and its offset, without wrapping.
pub record IsPlaced (pod node : ℕ) (e : MrEntry) : Type 0 where
  pub base : e.base_ub_addr ≡ Addr.new pod node e.device.device_id e.base_offset 0
  pub device : e.device.device_id < 2 ^ 16
  pub inside : e.base_offset + e.len < 2 ^ 64

-- Two entries share no byte of a device.
abbrev pub Apart : MrEntry → MrEntry → Type 0
Apart e f =
    e.device.device_id ≡ f.device.device_id
    → (e.base_offset + e.len ≤ f.base_offset) ⊎ (f.base_offset + f.len ≤ e.base_offset)

abbrev pub AreApart : List (ℕ × MrEntry) → Type 0
AreApart [] = Unit
AreApart (p ∷ ps) = All (λ (q : ℕ × MrEntry). Apart p.1 q.1) ps × AreApart ps

-- The node and the device of an address are the entry's, and its offset is within the entry.
pub record IsCovered (node a : ℕ) (e : MrEntry) : Type 0 where
  pub same_node : Addr.node_id a ≡ node
  pub same_device : Addr.device_id a ≡ e.device.device_id
  pub above : e.base_offset ≤ Addr.offset a
  pub below : Addr.offset a < e.base_offset + e.len

module _ (pod node : ℕ) (hp : pod < 2 ^ 16) (hn : node < 2 ^ 16) where
  placed_fields :
      (e : MrEntry)
      → IsPlaced pod node e
      → (Addr.node_id e.base_ub_addr ≡ node)
        × (Addr.device_id e.base_ub_addr ≡ e.device.device_id)
        × (Addr.offset e.base_ub_addr ≡ e.base_offset)
  placed_fields e v =
      let fields = fields-new pod node e.device.device_id e.base_offset 0 (record {
        pod_fits = hp;
        node_fits = hn;
        device_fits = v.device;
        offset_fits = omega (arith, v.inside);
        reserved_fits = omega arith;
      }) in
      rw v.base (fields.1, fields.2, fields.3)

  -- The test, on the fields of the entry.
  covers_eq :
      (a : ℕ) (e : MrEntry)
      → IsPlaced pod node e
      → covers a e.base_ub_addr e.len ≡ (
          node == Addr.node_id a
          && (e.device.device_id == Addr.device_id a
              && (leb e.base_offset (Addr.offset a)
                  && ltb (Addr.offset a) (e.base_offset + e.len))))
  unfolding covers
  covers_eq a e v =
      let f = placed_fields e v in
      let whole : (e.base_offset + e.len) % 2 ^ 64 ≡ e.base_offset + e.len =
        omega (arith, v.inside) in
      rw (f.0, f.1, f.2, whole)

  pub covers_iff :
      (a : ℕ) (e : MrEntry)
      → IsPlaced pod node e
      → (covers a e.base_ub_addr e.len ≡ true) ↔ IsCovered node a e
  covers_iff a e v = rw (covers_eq a e v) (
    λ t. record {
      same_node = ground arith;
      same_device = ground arith;
      above = ground arith;
      below = ground arith;
    },
    λ c. ground (arith, c.same_node, c.same_device, c.above, c.below),
  )

  -- Where entries share no byte, the search finds the one entry that covers the address, in
  -- whatever order it meets them.
  pub find_covering_lem :
      (a h : ℕ) (e : MrEntry) (es : List (ℕ × MrEntry))
      → All (λ (p : ℕ × MrEntry). IsPlaced pod node p.1) es
      → AreApart es
      → lookup h es ≡ some e
      → IsCovered node a e
      → find_covering a es ≡ some (e, Addr.offset a - e.base_offset)
  unfolding find_covering lookup
  find_covering_lem a h e [] placed apart found c = cc found
  find_covering_lem a h e ((j, f) ∷ es) placed apart found c = elim (Bool-cases (j ≟ h)) [
    | inl same ↦
        let here : f ≡ e = cc (rw same at found) in
        let c' : IsCovered node a f = subst (IsCovered node a) (sym here) c in
        let fields = placed_fields f placed.0 in rw ((covers_iff a f placed.0).1 c', fields.2, here)
    | inr other ↦
        let further : lookup h es ≡ some e = rw other at found in
        elim (Bool-cases (covers a f.base_ub_addr f.len)) [
          | inl both ↦
              let c' = (covers_iff a f placed.0).0 both in
              let split =
                lookup-All (Apart f) h e es apart.0 further (sym c'.same_device ∙ c.same_device) in
              absurd (elim split [
                | inl le ↦ omega (arith, c'.below, c.above)
                | inr ge ↦ omega (arith, c.below, c'.above)
              ])
          | inr skip ↦ rw skip (find_covering_lem a h e es placed.1 apart.1 further c)
        ]
  ]
