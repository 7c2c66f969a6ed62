-- ===== src/Core/Error.antt =====
-- crates/ub-core/src/error.rs, with the results that the other modules return.
use unibus_toy.Base.{ℕ, Bool, true, false, ◌≡◌, refl, ◌⊎◌, inl, inr}

-- The text of an `Internal` error, by what it reports.
pub data Report : Type 0 where
  frame_too_short ext_too_short ack_too_short sack_too_short credit_too_short : Report
  unexpected_eof : Report
  invalid_magic version_mismatch unknown_frame_type unknown_verb : ℕ → Report
  session_exists : Report
  ctrl_too_short ctrl_truncated invalid_text already_revoked : Report
  cas_too_short faa_too_short : Report
  unknown_status unknown_ctrl_type invalid_device_kind invalid_storage_tier invalid_access_pattern :
      ℕ → Report
  invalid_latency_class invalid_capacity_class : ℕ → Report

pub data UbError : Type 0 where
  addr_invalid perm_denied alignment link_down no_resources timeout payload_too_large : UbError
  flushed : UbError
  internal : Report → UbError
  io config : UbError

unfoldable pub status_code : UbError → ℕ
status_code addr_invalid = 1
status_code perm_denied = 2
status_code alignment = 3
status_code link_down = 4
status_code no_resources = 5
status_code timeout = 6
status_code payload_too_large = 7
status_code flushed = 8
status_code (internal _) = 9
status_code io = 9
status_code config = 9

-- `panicked` is a slice taken out of its bounds, which aborts the caller.
pub data Result {ℓ} (A : Type ℓ) : Type ℓ where
  ok : A → Result A
  err : UbError → Result A
  panicked : Result A

infixl 5 ◌>>=◌ ◌>>◌
abbrev pub ◌>>=◌ {ℓ κ} : {A : Type ℓ} {B : Type κ} → Result A → (A → Result B) → Result B
ok a >>= f = f a
err e >>= f = err e
panicked >>= f = panicked

abbrev pub ◌>>◌ {ℓ} : {B : Type ℓ} → Result (Unit {0}) → Result B → Result B
m >> k = m >>= λ _. k

-- `if !test { return Err(e) }`
abbrev pub guard : Bool → UbError → Result (Unit {0})
guard true e = ok tt
guard false e = err e

pub Result-cases {ℓ} :
    {A : Type ℓ} (r : Result A)
    → ((a : A) × (r ≡ ok a)) ⊎ (((e : UbError) × (r ≡ err e)) ⊎ (r ≡ panicked))
Result-cases (ok a) = inl (a, refl)
Result-cases (err e) = inr (inl (e, refl))
Result-cases panicked = inr (inr refl)
