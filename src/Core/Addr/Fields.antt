-- ===== src/Core/Addr/Fields.antt =====
-- The fields and the bytes of `UbAddr` (crates/ub-core/src/addr.rs).
use unibus_toy.Base.{
  ℕ, ◌+◌, ◌*◌, ◌/◌, ◌-◌, ◌%◌, ◌^◌, ◌<◌, ◌≡◌, ◌∙◌, sym, bit_and, bit_or, arith, length,
}
use unibus_toy.Base.Fields.{bit_or-fields, bit_and-ones, bit_or-split, bit_and-split, or-zero}
use unibus_toy.Core.Bytes.{length-be_bytes, from_be-be_bytes}
use unibus_toy.Core.Addr.{
  new, pod_id, node_id, device_id, offset, reserved, with_offset, to_bytes, from_bytes,
}

-- The values that the fields of an address can take.
pub record AreFields (pod node device offset reserved : ℕ) : Type 0 where
  pub pod_fits : pod < 2 ^ 16
  pub node_fits : node < 2 ^ 16
  pub device_fits : device < 2 ^ 16
  pub offset_fits : offset < 2 ^ 64
  pub reserved_fits : reserved < 2 ^ 16

-- The bytes of an address of 128 bits, highest first, are sixteen and give the address back.
pub from_bytes-to_bytes :
    (a : ℕ) → a < 2 ^ 128 → (from_bytes (to_bytes a) ≡ a) × (length (to_bytes a) ≡ 16)
unfolding from_bytes to_bytes
from_bytes-to_bytes a h = (from_be-be_bytes 16 a h, length-be_bytes 16 a)

join : (k x q r : ℕ) → x ≡ q * 2 ^ k → r < 2 ^ k → bit_or x r ≡ x + r
join k x q r e h = rw e (bit_or-fields k q r h)

module _ (p n d o r : ℕ) (h : AreFields p n d o r) where
  pub new-sum : new p n d o r ≡ p * 2 ^ 112 + n * 2 ^ 96 + d * 2 ^ 80 + o * 2 ^ 16 + r
  unfolding new
  new-sum =
      let a = p * 2 ^ 112 in
      let b = n * 2 ^ 96 in
      let c = d * 2 ^ 80 in
      let e = o * 2 ^ 16 in
      rw (
        join 112 a p b (omega arith) (omega (arith, h.node_fits)),
        join 96 (a + b) (p * 2 ^ 16 + n) c (omega arith) (omega (arith, h.device_fits)),
        join 80 (a + b + c) (p * 2 ^ 32 + n * 2 ^ 16 + d) e (omega arith)
            (omega (arith, h.offset_fits)),
        join 16 (a + b + c + e) (p * 2 ^ 96 + n * 2 ^ 80 + d * 2 ^ 64 + o) r (omega arith)
            h.reserved_fits,
      )

  pub new-lt : new p n d o r < 2 ^ 128
  new-lt =
      rw new-sum
        (omega (arith, h.pod_fits, h.node_fits, h.device_fits, h.offset_fits, h.reserved_fits))

  -- Where the five fields of an address fit their widths, each of them can be read back from the
  -- number that joins them.
  pub fields-new :
      (pod_id (new p n d o r) ≡ p)
      × (node_id (new p n d o r) ≡ n)
      × (device_id (new p n d o r) ≡ d)
      × (offset (new p n d o r) ≡ o)
      × (reserved (new p n d o r) ≡ r)
  unfolding pod_id node_id device_id offset reserved
  fields-new = rw (new-sum) (
    bit_and-ones 16 _ ∙ omega arith,
    bit_and-ones 16 _ ∙ omega arith,
    bit_and-ones 16 _ ∙ omega arith,
    bit_and-ones 64 _ ∙ omega arith,
    bit_and-ones 16 _ ∙ omega arith,
  )

masked_offset :
    (a : ℕ)
    → a < 2 ^ 128
    → bit_and a (2 ^ 128 - 1 - 0xffff_ffff_ffff_ffff * 2 ^ 16) ≡ a / 2 ^ 80 * 2 ^ 80 + a % 2 ^ 16
masked_offset a h =
    bit_and-split 80 a (2 ^ 128 - 1 - 0xffff_ffff_ffff_ffff * 2 ^ 16)
    ∙ rw (bit_and-ones 48 (a / 2 ^ 80), bit_and-ones 16 (a % 2 ^ 80)) (omega arith)

fill_middle :
    (q o c : ℕ)
    → o < 2 ^ 64
    → c < 2 ^ 16
    → bit_or (q * 2 ^ 80 + c) (o * 2 ^ 16) ≡ q * 2 ^ 80 + o * 2 ^ 16 + c
fill_middle q o c ho hc =
    let a = q * 2 ^ 80 + c in
    let b = o * 2 ^ 16 in
    let aq : a / 2 ^ 16 ≡ q * 2 ^ 64 = omega arith in
    let ar : a % 2 ^ 16 ≡ c = omega arith in
    let bq : b / 2 ^ 16 ≡ o = omega arith in
    let br : b % 2 ^ 16 ≡ 0 = omega arith in
    bit_or-split 16 a b ∙ rw (aq, ar, bq, br, bit_or-fields 64 q o ho, or-zero c) (omega arith)

with_offset-sum :
    (a o : ℕ)
    → a < 2 ^ 128
    → o < 2 ^ 64
    → with_offset a o ≡ a / 2 ^ 80 * 2 ^ 80 + o * 2 ^ 16 + a % 2 ^ 16
unfolding with_offset
with_offset-sum a o h ho =
    rw (masked_offset a h) (fill_middle (a / 2 ^ 80) o (a % 2 ^ 16) ho (omega arith))

-- Replacing the offset of an address of 128 bits by one of 64 bits stores the new offset and
-- leaves the other four fields.
pub fields-with_offset :
    (a o : ℕ)
    → a < 2 ^ 128
    → o < 2 ^ 64
    → (offset (with_offset a o) ≡ o)
      × (pod_id (with_offset a o) ≡ pod_id a)
      × (node_id (with_offset a o) ≡ node_id a)
      × (device_id (with_offset a o) ≡ device_id a)
      × (reserved (with_offset a o) ≡ reserved a)
unfolding pod_id node_id device_id offset reserved
fields-with_offset a o h ho = rw (with_offset-sum a o h ho) (
  bit_and-ones 64 _ ∙ omega arith,
  bit_and-ones 16 _ ∙ omega arith ∙ sym (bit_and-ones 16 _),
  bit_and-ones 16 _ ∙ omega arith ∙ sym (bit_and-ones 16 _),
  bit_and-ones 16 _ ∙ omega arith ∙ sym (bit_and-ones 16 _),
  bit_and-ones 16 _ ∙ omega arith ∙ sym (bit_and-ones 16 _),
)
