-- ===== src/Hash.antt =====
-- core/src/hash: the two digests, and the word operations that they share.
pub mod Md5
pub mod Sha256
pub mod Lengths
mod Tests
use oxinode.Prelude.{
  ℕ, zero, suc, ◌+◌, ◌-◌, ◌*◌, ◌/◌, ◌%◌, ◌^◌, List, [], ◌∷◌, ◌++◌, Bytes, replicate, get_or, length,
  ltb, if◌then◌else◌,
}

-- Words of 32 bits: `!`, `wrapping_add`, `rotate_left` and `rotate_right`.
unfoldable pub not32 : ℕ → ℕ
not32 x = 0xFFFFFFFF - x

unfoldable pub add32 : ℕ → ℕ → ℕ
add32 x y = (x + y) % 2 ^ 32

unfoldable pub rotate_left : ℕ → ℕ → ℕ
rotate_left x n = x * 2 ^ n % 2 ^ 32 + x / 2 ^ (32 - n)

unfoldable pub rotate_right : ℕ → ℕ → ℕ
rotate_right x n = x / 2 ^ n + x * 2 ^ (32 - n) % 2 ^ 32

-- `to_le_bytes` and `to_be_bytes` of a word of `n` bytes.
unfoldable pub le_bytes : ℕ → ℕ → Bytes
le_bytes zero x = []
le_bytes (suc n) x = x % 256 ∷ le_bytes n (x / 256)

unfoldable pub be_bytes : ℕ → ℕ → Bytes
be_bytes zero x = []
be_bytes (suc n) x = be_bytes n (x / 256) ++ (x % 256 ∷ [])

-- `from_le_bytes` and `from_be_bytes` of the four bytes at an index.
unfoldable pub le_word : Bytes → ℕ → ℕ
le_word block i =
    get_or block i 0
    + get_or block (i + 1) 0 * 0x100
    + get_or block (i + 2) 0 * 0x10000
    + get_or block (i + 3) 0 * 0x1000000

unfoldable pub be_word : Bytes → ℕ → ℕ
be_word block i =
    get_or block i 0 * 0x1000000
    + get_or block (i + 1) 0 * 0x10000
    + get_or block (i + 2) 0 * 0x100
    + get_or block (i + 3) 0

-- The last one or two blocks of a message: what was left over, 0x80, zeros, and the length in bits.
unfoldable pub last_blocks : Bytes → Bytes → List Bytes
unfolding replicate
last_blocks tail bits =
    let ended : Bytes = tail ++ (0x80 ∷ []) in
    if ltb 64 (length tail + 9)
    then (ended ++ replicate (64 - length ended) 0) ∷ (replicate 56 0 ++ bits) ∷ []
    else ((ended ++ replicate (56 - length ended) 0) ++ bits) ∷ []
