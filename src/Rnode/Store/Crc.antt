-- ===== src/Rnode/Store/Crc.antt =====
-- The checksum of a record: `crc32_continue`, `crc32` and `record_crc` of core/src/rnode/store.rs.
use oxinode.Prelude.{
  ℕ, zero, suc, ◌/◌, ◌%◌, ◌<◌, ◌^◌, [], ◌∷◌, Bytes, take, drop, ◌≡◌, ap₂, arith, bit_xor,
  if◌then◌else◌, ◌==◌,
}
use oxinode.Hash.{not32}

-- `count` turns of the inner loop: `mask` is all ones exactly if the lowest bit is one.
unfoldable pub crc_bits : (count : ℕ) → ℕ → ℕ
crc_bits zero value = value
crc_bits (suc count) value =
    crc_bits count (if value % 2 == 1 then bit_xor (value / 2) 0xEDB88320 else value / 2)

unfoldable pub crc_bytes : Bytes → ℕ → ℕ
unfolding crc_bits
crc_bytes [] value = value
crc_bytes (byte ∷ bytes) value = crc_bytes bytes (crc_bits 8 (bit_xor value byte))

unfoldable pub crc32_continue : ℕ → Bytes → ℕ
unfolding crc_bytes not32
crc32_continue crc bytes = not32 (crc_bytes bytes (not32 crc))

unfoldable pub crc32 : Bytes → ℕ
unfolding crc32_continue
crc32 bytes = crc32_continue 0 bytes

-- The checksum leaves out its own four bytes.
unfoldable pub record_crc : Bytes → ℕ
unfolding crc32 crc32_continue
record_crc bytes = crc32_continue (crc32 (take 8 bytes)) (drop 12 bytes)

pub record_crc-bound : (bytes : Bytes) → record_crc bytes < 2 ^ 32
unfolding record_crc crc32_continue not32
record_crc-bound bytes = omega arith

-- The first eight bytes and those from the twelfth on are all that it reads.
pub record_crc-parts :
    (xs ys : Bytes)
    → take 8 xs ≡ take 8 ys
    → drop 12 xs ≡ drop 12 ys
    → record_crc xs ≡ record_crc ys
unfolding record_crc
record_crc-parts xs ys e f = ap₂ (λ a b. crc32_continue (crc32 a) b) e f
