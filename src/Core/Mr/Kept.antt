-- ===== src/Core/Mr/Kept.antt =====
-- The table of memory regions (crates/ub-core/src/mr.rs) as entries change state and leave it.
use unibus_toy.Base.{
  ℕ, ◌+◌, ◌^◌, ◌≤◌, ◌<◌, inl, inr, Bool, List, [], ◌∷◌, Bool-cases, Option-cases, All,
}
use unibus_toy.Base.Assoc.{
  number_key, lookup as map_lookup, remove, modify, ◌≟◌, remove-All, modify-All,
}
use unibus_toy.Core.Error.{Result-cases}
use unibus_toy.Core.Mr.{
  MrEntry, MrTable, MrState, revoking, released, is_active, allocator_of, begin_revoke,
  remove_entry, deregister, finish_async,
}
use unibus_toy.Core.Mr.Covering.{IsPlaced, Apart, AreApart}

-- The next free offset of the device that an entry is on.
abbrev pub Below : List (ℕ × ℕ) → MrEntry → Type 0
Below allocators e = e.base_offset + e.len ≤ allocator_of e.device.device_id allocators

-- The entries lie where the allocators have been, and no two of them share a byte.
pub record IsTable (t : MrTable) : Type 0 where
  pub pod : t.pod_id < 2 ^ 16
  pub node : t.node_id < 2 ^ 16
  pub placed : All (λ (p : ℕ × MrEntry). IsPlaced t.pod_id t.node_id p.1) t.entries
  pub apart : AreApart t.entries
  pub fresh : All (λ (p : ℕ × MrEntry). p.0 < t.next_handle) t.entries
  pub below : All (λ (p : ℕ × MrEntry). Below t.offset_allocators p.1) t.entries

remove-AreApart : (k : ℕ) (m : List (ℕ × MrEntry)) → AreApart m → AreApart (remove k m)
unfolding remove
remove-AreApart k [] apart = tt
remove-AreApart k ((j, w) ∷ m) apart = elim (Bool-cases (j ≟ k)) [
  | inl same ↦ rw same (remove-AreApart k m apart.1)
  | inr other ↦
      rw other
        (remove-All (λ (p : ℕ × MrEntry). Apart w p.1) k m apart.0, remove-AreApart k m apart.1)
]

abbrev with_state : MrState → MrEntry → MrEntry
with_state s e = record e { state = s }

state-AreApart :
    (k : ℕ) (s : MrState) (m : List (ℕ × MrEntry))
    → AreApart m
    → AreApart (modify k (with_state s) m)
unfolding modify
state-AreApart k s [] apart = tt
state-AreApart k s ((j, w) ∷ m) apart =
    let rest =
      modify-All (λ (p : ℕ × MrEntry). Apart w p.1) k (with_state s) m (λ i v a. a) apart.0 in
    elim (Bool-cases (j ≟ k)) [
      | inl same ↦ rw same (rest, state-AreApart k s m apart.1)
      | inr other ↦ rw other (rest, state-AreApart k s m apart.1)
    ]

remove_entry-IsTable : (h : ℕ) (t : MrTable) → IsTable t → IsTable (remove_entry h t)
unfolding remove_entry
remove_entry-IsTable h t v = record {
  pod = v.pod;
  node = v.node;
  placed = remove-All _ h t.entries v.placed;
  apart = remove-AreApart h t.entries v.apart;
  fresh = remove-All _ h t.entries v.fresh;
  below = remove-All _ h t.entries v.below;
}

state-IsTable :
    (h : ℕ) (s : MrState) (t : MrTable)
    → IsTable t
    → IsTable (record t { entries = modify h (with_state s) t.entries })
state-IsTable h s t v = record {
  pod = v.pod;
  node = v.node;
  placed =
      modify-All (λ (p : ℕ × MrEntry). IsPlaced t.pod_id t.node_id p.1) h (with_state s) t.entries
        (λ i e w. record { base = w.base; device = w.device; inside = w.inside }) v.placed;
  apart = state-AreApart h s t.entries v.apart;
  fresh =
      modify-All (λ (p : ℕ × MrEntry). p.0 < t.next_handle) h (with_state s) t.entries (λ i e w. w)
        v.fresh;
  below =
      modify-All (λ (p : ℕ × MrEntry). Below t.offset_allocators p.1) h (with_state s) t.entries
        (λ i e w. w) v.below;
}

pub begin_revoke-IsTable : (h : ℕ) (t : MrTable) → IsTable t → IsTable (begin_revoke h t).1
unfolding begin_revoke
begin_revoke-IsTable h t v = elim (Option-cases (map_lookup h t.entries)) [
  | inl missing ↦ rw (missing, begin_revoke) v
  | inr (e, found) ↦ elim (Bool-cases (is_active e.state)) [
    | inr stopped ↦ rw (found, stopped, begin_revoke) v
    | inl going ↦
        rw (found, going, begin_revoke)
          (let w = state-IsTable h revoking t v in
            record {
              pod = w.pod;
              node = w.node;
              placed = w.placed;
              apart = w.apart;
              fresh = w.fresh;
              below = w.below;
            })
  ]
]

pub deregister-IsTable : (h : ℕ) (t : MrTable) → IsTable t → IsTable (deregister h t).1
unfolding deregister
deregister-IsTable h t v =
    let w = begin_revoke-IsTable h t v in
    elim (Result-cases (begin_revoke h t).0) [
      | inl (u, e) ↦ rw (e, deregister) (remove_entry-IsTable h _ w)
      | inr (inl (x, e)) ↦ rw (e, deregister) w
      | inr (inr e) ↦ rw (e, deregister) w
    ]

pub finish_async-IsTable :
    (h : ℕ) (drained : Bool) (t : MrTable) → IsTable t → IsTable (finish_async h drained t).1
unfolding finish_async
finish_async-IsTable h drained t v = remove_entry-IsTable h _ (state-IsTable h released t v)
