-- ===== src/Tests/ReadCache.antt =====
-- crates/ub-transport/src/read_cache.rs at concrete inputs.
use unibus_toy.Base.{◌≡◌, some, [], ◌∷◌, arith}
use unibus_toy.Base.Assoc.{pair_key}
use unibus_toy.Transport.ReadCache.{CacheEntry, ReadResponseCache, get, insert}
use unibus_toy.Transport.ReadCache.Bounded.{get-insert}

abbrev old_entry : CacheEntry
old_entry = record { response = 1 ∷ []; inserted_at = 10; order = 0 }

abbrev one_entry : ReadResponseCache
one_entry = record { entries = ((1, 1), old_entry) ∷ []; capacity = 2; ttl = 100; next_order = 1 }

inserted_found : (get 60 (insert 50 51 one_entry (1, 2) (7 ∷ [])) (1, 2)).1 ≡ some (7 ∷ [])
inserted_found = get-insert 50 51 60 one_entry (1, 2) (7 ∷ []) (omega arith)
