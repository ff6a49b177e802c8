-- ===== src/Hash/Sha256.antt =====
-- core/src/hash/sha256.rs: the digest of a device.
use oxinode.Prelude.{
  ℕ, zero, suc, ◌+◌, ◌-◌, ◌*◌, ◌/◌, ◌%◌, ◌^◌, List, [], ◌∷◌, ◌++◌, Bytes, get_or, length, take,
  drop, bit_and, bit_xor,
}
use oxinode.Hash.{not32, add32, rotate_right, be_bytes, be_word, last_blocks}

abbrev k : List ℕ
k =
    0x428a2f98 ∷ 0x71374491 ∷ 0xb5c0fbcf ∷ 0xe9b5dba5 ∷ 0x3956c25b ∷ 0x59f111f1 ∷ 0x923f82a4
    ∷ 0xab1c5ed5 ∷ 0xd807aa98 ∷ 0x12835b01 ∷ 0x243185be ∷ 0x550c7dc3 ∷ 0x72be5d74 ∷ 0x80deb1fe
    ∷ 0x9bdc06a7 ∷ 0xc19bf174 ∷ 0xe49b69c1 ∷ 0xefbe4786 ∷ 0x0fc19dc6 ∷ 0x240ca1cc ∷ 0x2de92c6f
    ∷ 0x4a7484aa ∷ 0x5cb0a9dc ∷ 0x76f988da ∷ 0x983e5152 ∷ 0xa831c66d ∷ 0xb00327c8 ∷ 0xbf597fc7
    ∷ 0xc6e00bf3 ∷ 0xd5a79147 ∷ 0x06ca6351 ∷ 0x14292967 ∷ 0x27b70a85 ∷ 0x2e1b2138 ∷ 0x4d2c6dfc
    ∷ 0x53380d13 ∷ 0x650a7354 ∷ 0x766a0abb ∷ 0x81c2c92e ∷ 0x92722c85 ∷ 0xa2bfe8a1 ∷ 0xa81a664b
    ∷ 0xc24b8b70 ∷ 0xc76c51a3 ∷ 0xd192e819 ∷ 0xd6990624 ∷ 0xf40e3585 ∷ 0x106aa070 ∷ 0x19a4c116
    ∷ 0x1e376c08 ∷ 0x2748774c ∷ 0x34b0bcb5 ∷ 0x391c0cb3 ∷ 0x4ed8aa4a ∷ 0x5b9cca4f ∷ 0x682e6ff3
    ∷ 0x748f82ee ∷ 0x78a5636f ∷ 0x84c87814 ∷ 0x8cc70208 ∷ 0x90befffa ∷ 0xa4506ceb ∷ 0xbef9a3f7
    ∷ 0xc67178f2 ∷ []

pub record State : Type 0 where
  pub a : ℕ
  pub b : ℕ
  pub c : ℕ
  pub d : ℕ
  pub e : ℕ
  pub f : ℕ
  pub g : ℕ
  pub h : ℕ

-- The first sixteen words of the schedule, from word `i` on.
unfoldable pub block_words : Bytes → (count i : ℕ) → List ℕ
unfolding be_word
block_words block zero i = []
block_words block (suc count) i = be_word block (i * 4) ∷ block_words block count (i + 1)

unfoldable pub schedule_word : List ℕ → ℕ → ℕ
unfolding add32 rotate_right
schedule_word w i =
    let x = get_or w (i - 15) 0 in
    let y = get_or w (i - 2) 0 in
    let s0 = bit_xor (bit_xor (rotate_right x 7) (rotate_right x 18)) (x / 2 ^ 3) in
    let s1 = bit_xor (bit_xor (rotate_right y 17) (rotate_right y 19)) (y / 2 ^ 10) in
    add32 (add32 (add32 (get_or w (i - 16) 0) s0) (get_or w (i - 7) 0)) s1

-- `count` further words of the schedule, from word `i` on.
unfoldable pub schedule : (count i : ℕ) → List ℕ → List ℕ
unfolding schedule_word
schedule zero i w = w
schedule (suc count) i w = schedule count (i + 1) (w ++ (schedule_word w i ∷ []))

unfoldable pub round : List ℕ → ℕ → State → State
unfolding not32 add32 rotate_right
round w i st =
    let s1 =
      bit_xor (bit_xor (rotate_right st.e 6) (rotate_right st.e 11)) (rotate_right st.e 25) in
    let ch = bit_xor (bit_and st.e st.f) (bit_and (not32 st.e) st.g) in
    let t1 = add32 (add32 (add32 (add32 st.h s1) ch) (get_or k i 0)) (get_or w i 0) in
    let s0 =
      bit_xor (bit_xor (rotate_right st.a 2) (rotate_right st.a 13)) (rotate_right st.a 22) in
    let maj = bit_xor (bit_xor (bit_and st.a st.b) (bit_and st.a st.c)) (bit_and st.b st.c) in
    let t2 = add32 s0 maj in
    record {
      a = add32 t1 t2;
      b = st.a;
      c = st.b;
      d = st.c;
      e = add32 st.d t1;
      f = st.e;
      g = st.f;
      h = st.g;
    }

-- `count` rounds from round `i` on.
unfoldable pub rounds : List ℕ → (count i : ℕ) → State → State
unfolding round
rounds w zero i st = st
rounds w (suc count) i st = rounds w count (i + 1) (round w i st)

unfoldable pub compress : State → Bytes → State
unfolding rounds schedule block_words add32
compress st block =
    let w = schedule 48 16 (block_words block 16 0) in
    let r = rounds w 64 0 st in
    record {
      a = add32 st.a r.a;
      b = add32 st.b r.b;
      c = add32 st.c r.c;
      d = add32 st.d r.d;
      e = add32 st.e r.e;
      f = add32 st.f r.f;
      g = add32 st.g r.g;
      h = add32 st.h r.h;
    }

unfoldable pub compress_all : State → List Bytes → State
unfolding compress
compress_all st [] = st
compress_all st (block ∷ blocks) = compress_all (compress st block) blocks

-- The whole blocks of a message.
unfoldable pub chunks : (count : ℕ) → Bytes → List Bytes
chunks zero data_bytes = []
chunks (suc count) data_bytes = take 64 data_bytes ∷ chunks count (drop 64 data_bytes)

abbrev start : State
start = record {
  a = 0x6a09e667;
  b = 0xbb67ae85;
  c = 0x3c6ef372;
  d = 0xa54ff53a;
  e = 0x510e527f;
  f = 0x9b05688c;
  g = 0x1f83d9ab;
  h = 0x5be0cd19;
}

unfoldable pub digest : Bytes → Bytes
unfolding compress_all chunks last_blocks be_bytes
digest message =
    let whole : ℕ = length message / 64 in
    let tail = drop (whole * 64) message in
    let bits = be_bytes 8 (length message * 8 % 2 ^ 64) in
    let st = compress_all (compress_all start (chunks whole message)) (last_blocks tail bits) in
    be_bytes 4 st.a
    ++ (be_bytes 4 st.b
        ++ (be_bytes 4 st.c
            ++ (be_bytes 4 st.d
                ++ (be_bytes 4 st.e ++ (be_bytes 4 st.f ++ (be_bytes 4 st.g ++ be_bytes 4 st.h))))))
