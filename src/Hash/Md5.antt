-- ===== src/Hash/Md5.antt =====
-- core/src/hash/md5.rs: the digest of the identity block.
use oxinode.Prelude.{
  ℕ, zero, suc, ◌+◌, ◌*◌, ◌/◌, ◌%◌, ◌^◌, List, [], ◌∷◌, ◌++◌, Bytes, get_or, length, take, drop,
  ◌==◌, if◌then◌else◌, bit_and, bit_or, bit_xor,
}
use oxinode.Hash.{not32, add32, rotate_left, le_bytes, le_word, last_blocks}

abbrev k : List ℕ
k =
    0xd76aa478 ∷ 0xe8c7b756 ∷ 0x242070db ∷ 0xc1bdceee ∷ 0xf57c0faf ∷ 0x4787c62a ∷ 0xa8304613
    ∷ 0xfd469501 ∷ 0x698098d8 ∷ 0x8b44f7af ∷ 0xffff5bb1 ∷ 0x895cd7be ∷ 0x6b901122 ∷ 0xfd987193
    ∷ 0xa679438e ∷ 0x49b40821 ∷ 0xf61e2562 ∷ 0xc040b340 ∷ 0x265e5a51 ∷ 0xe9b6c7aa ∷ 0xd62f105d
    ∷ 0x02441453 ∷ 0xd8a1e681 ∷ 0xe7d3fbc8 ∷ 0x21e1cde6 ∷ 0xc33707d6 ∷ 0xf4d50d87 ∷ 0x455a14ed
    ∷ 0xa9e3e905 ∷ 0xfcefa3f8 ∷ 0x676f02d9 ∷ 0x8d2a4c8a ∷ 0xfffa3942 ∷ 0x8771f681 ∷ 0x6d9d6122
    ∷ 0xfde5380c ∷ 0xa4beea44 ∷ 0x4bdecfa9 ∷ 0xf6bb4b60 ∷ 0xbebfbc70 ∷ 0x289b7ec6 ∷ 0xeaa127fa
    ∷ 0xd4ef3085 ∷ 0x04881d05 ∷ 0xd9d4d039 ∷ 0xe6db99e5 ∷ 0x1fa27cf8 ∷ 0xc4ac5665 ∷ 0xf4292244
    ∷ 0x432aff97 ∷ 0xab9423a7 ∷ 0xfc93a039 ∷ 0x655b59c3 ∷ 0x8f0ccc92 ∷ 0xffeff47d ∷ 0x85845dd1
    ∷ 0x6fa87e4f ∷ 0xfe2ce6e0 ∷ 0xa3014314 ∷ 0x4e0811a1 ∷ 0xf7537e82 ∷ 0xbd3af235 ∷ 0x2ad7d2bb
    ∷ 0xeb86d391 ∷ []

abbrev s : List ℕ
s =
    7 ∷ 12 ∷ 17 ∷ 22 ∷ 7 ∷ 12 ∷ 17 ∷ 22 ∷ 7 ∷ 12 ∷ 17 ∷ 22 ∷ 7 ∷ 12 ∷ 17 ∷ 22 ∷ 5 ∷ 9 ∷ 14 ∷ 20 ∷ 5
    ∷ 9 ∷ 14 ∷ 20 ∷ 5 ∷ 9 ∷ 14 ∷ 20 ∷ 5 ∷ 9 ∷ 14 ∷ 20 ∷ 4 ∷ 11 ∷ 16 ∷ 23 ∷ 4 ∷ 11 ∷ 16 ∷ 23 ∷ 4 ∷ 11
    ∷ 16 ∷ 23 ∷ 4 ∷ 11 ∷ 16 ∷ 23 ∷ 6 ∷ 10 ∷ 15 ∷ 21 ∷ 6 ∷ 10 ∷ 15 ∷ 21 ∷ 6 ∷ 10 ∷ 15 ∷ 21 ∷ 6 ∷ 10
    ∷ 15 ∷ 21 ∷ []

pub record State : Type 0 where
  pub a : ℕ
  pub b : ℕ
  pub c : ℕ
  pub d : ℕ

-- The function of a round, and the word that it takes.
unfoldable pub mix : ℕ → State → ℕ
unfolding not32
mix i st =
    if i / 16 == 0
    then bit_or (bit_and st.b st.c) (bit_and (not32 st.b) st.d)
    else if i / 16 == 1
    then bit_or (bit_and st.d st.b) (bit_and (not32 st.d) st.c)
    else if i / 16 == 2
    then bit_xor (bit_xor st.b st.c) st.d
    else bit_xor st.c (bit_or st.b (not32 st.d))

unfoldable pub word_index : ℕ → ℕ
word_index i =
    if i / 16 == 0
    then i
    else if i / 16 == 1
    then (5 * i + 1) % 16
    else if i / 16 == 2
    then (3 * i + 5) % 16
    else 7 * i % 16

unfoldable pub round : Bytes → ℕ → State → State
unfolding mix word_index add32 rotate_left le_word
round block i st = record {
  a = st.d;
  b = add32 st.b (
      rotate_left
        (add32 (add32 (add32 st.a (mix i st)) (get_or k i 0)) (le_word block (word_index i * 4)))
        (get_or s i 0));
  c = st.b;
  d = st.c;
}

-- `count` rounds from round `i` on.
unfoldable pub rounds : Bytes → (count i : ℕ) → State → State
unfolding round
rounds block zero i st = st
rounds block (suc count) i st = rounds block count (i + 1) (round block i st)

unfoldable pub compress : State → Bytes → State
unfolding rounds add32
compress st block =
    let r = rounds block 64 0 st in
    record { a = add32 st.a r.a; b = add32 st.b r.b; c = add32 st.c r.c; d = add32 st.d r.d }

unfoldable pub compress_all : State → List Bytes → State
unfolding compress
compress_all st [] = st
compress_all st (block ∷ blocks) = compress_all (compress st block) blocks

-- The whole blocks of a message.
unfoldable pub chunks : (count : ℕ) → Bytes → List Bytes
chunks zero data_bytes = []
chunks (suc count) data_bytes = take 64 data_bytes ∷ chunks count (drop 64 data_bytes)

abbrev start : State
start = record { a = 0x67452301; b = 0xefcdab89; c = 0x98badcfe; d = 0x10325476 }

unfoldable pub digest : Bytes → Bytes
unfolding compress_all chunks last_blocks le_bytes
digest message =
    let whole : ℕ = length message / 64 in
    let tail = drop (whole * 64) message in
    let bits = le_bytes 8 (length message * 8 % 2 ^ 64) in
    let st = compress_all (compress_all start (chunks whole message)) (last_blocks tail bits) in
    le_bytes 4 st.a ++ (le_bytes 4 st.b ++ (le_bytes 4 st.c ++ le_bytes 4 st.d))
