-- ===== src/Tests/Core.antt =====
-- The small types of crates/ub-core/src/types.rs at concrete inputs.
use unibus_toy.Base.{◌≡◌, refl, none, some}
use unibus_toy.Core.DeviceKind
use unibus_toy.Core.StorageTier
use unibus_toy.Core.Perms
use unibus_toy.Core.Verb

unknown_bytes :
    (Verb.from_u8 10 ≡ none)
    × (DeviceKind.from_u8 2 ≡ none)
    × (StorageTier.from_u8 2 ≡ some StorageTier.cold)
    × (Perms.truncate 0xff ≡ 7)
unfolding Verb.from_u8 DeviceKind.from_u8 StorageTier.from_u8 Perms.truncate
unknown_bytes = (refl, refl, refl, refl)
