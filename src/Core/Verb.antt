-- ===== src/Core/Verb.antt =====
-- crates/ub-core/src/types.rs: the verbs and the other enumerations that travel as one byte.
use unibus_toy.Base.{ℕ, ◌≡◌, refl, Option, none, some, ◌==◌, if◌then◌else◌}

pub data Verb : Type 0 where
  read_req read_resp write atomic_cas atomic_faa send write_imm : Verb
  atomic_cas_resp atomic_faa_resp : Verb

-- `verb as u8`
unfoldable pub to_u8 : Verb → ℕ
to_u8 read_req = 1
to_u8 read_resp = 2
to_u8 write = 3
to_u8 atomic_cas = 4
to_u8 atomic_faa = 5
to_u8 send = 6
to_u8 write_imm = 7
to_u8 atomic_cas_resp = 8
to_u8 atomic_faa_resp = 9

unfoldable pub from_u8 : ℕ → Option Verb
from_u8 v =
    if v == 1
    then some read_req
    else if v == 2
    then some read_resp
    else if v == 3
    then some write
    else if v == 4
    then some atomic_cas
    else if v == 5
    then some atomic_faa
    else if v == 6
    then some send
    else if v == 7
    then some write_imm
    else if v == 8
    then some atomic_cas_resp
    else if v == 9
    then some atomic_faa_resp
    else none

pub from_u8-to_u8 : (v : Verb) → from_u8 (to_u8 v) ≡ some v
unfolding from_u8 to_u8
from_u8-to_u8 read_req = refl
from_u8-to_u8 _ = refl
