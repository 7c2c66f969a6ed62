-- ===== src/Control/Message/DeviceProfilePublish.antt =====
-- crates/ub-control/src/message.rs: `DeviceProfilePublishPayload`, the payload of
-- DEVICE_PROFILE_PUBLISH.
use unibus_toy.Base.{ℕ, zero, suc, ◌≡◌, refl, List, [], ◌∷◌, ◌++◌, length, All}
use mathlib.Core.List.{append_assoc, append-nil}
use unibus_toy.Core.Error.{Result, ok, ◌>>=◌}
use unibus_toy.Core.Bytes.{be_bytes, Fits}
use unibus_toy.Wire.Codec.{read_be}
use unibus_toy.Control.Cursor.{encode_bytes, read_bytes, reads, read_bytes-encode}
use unibus_toy.Control.Message.DeviceProfileEntry
use unibus_toy.Control.Message.DeviceProfileEntry.{DeviceProfileEntry, IsDeviceProfileEntry}

pub record DeviceProfilePublishPayload : Type 0 where
  pub entries : List DeviceProfileEntry

-- The loop of `encode`, each entry behind its length.
unfoldable pub encode_entries : List DeviceProfileEntry → List ℕ
encode_entries [] = []
encode_entries (e ∷ es) = encode_bytes (DeviceProfileEntry.encode e) ++ encode_entries es

unfoldable pub encode : DeviceProfilePublishPayload → List ℕ
encode p = be_bytes 4 (length p.entries) ++ encode_entries p.entries

unfoldable pub decode_entries : ℕ → List ℕ → Result (List DeviceProfileEntry)
decode_entries zero cur = ok []
decode_entries (suc count) cur = do
  (entry_buf, cur) ← read_bytes cur
  entry ← DeviceProfileEntry.decode entry_buf
  entries ← decode_entries count cur
  ok (entry ∷ entries)

unfoldable pub decode : List ℕ → Result DeviceProfilePublishPayload
decode cur = do
  (count, cur) ← read_be 4 cur
  entries ← decode_entries count cur
  ok (record { entries = entries })

pub record IsDeviceProfilePublish (p : DeviceProfilePublishPayload) : Type 0 where
  pub count : Fits 4 (length p.entries)
  pub entries : All IsDeviceProfileEntry p.entries

decode_entries-encode_entries :
    (es : List DeviceProfileEntry) (rest : List ℕ)
    → All IsDeviceProfileEntry es
    → decode_entries (length es) (encode_entries es ++ rest) ≡ ok es
unfolding decode_entries encode_entries
decode_entries-encode_entries [] rest v = refl
decode_entries-encode_entries (e ∷ es) rest v =
    let whole = DeviceProfileEntry.decode-encode e [] v.0 in
    simp (
      append_assoc,
      read_bytes-encode (DeviceProfileEntry.encode-short e),
      rw append-nil at whole,
      decode_entries-encode_entries es rest v.1,
    )

pub decode-encode :
    (p : DeviceProfilePublishPayload) (rest : List ℕ)
    → IsDeviceProfilePublish p
    → decode (encode p ++ rest) ≡ ok p
unfolding decode encode
decode-encode p rest v =
    simp (append_assoc, reads v.count, decode_entries-encode_entries p.entries rest v.entries)
