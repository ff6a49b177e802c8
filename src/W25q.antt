-- ===== src/W25q.antt =====
-- core/src/w25q.rs: the flash chip's identity and status, and the pattern that tests a sector of it.
pub mod Pattern
mod Tests
use oxinode.Prelude.{
  ℕ, ◌+◌, ◌-◌, ◌*◌, ◌/◌, ◌%◌, ◌^◌, min, Bool, true, false, not, ◌&&◌, ◌||◌, List, [], ◌∷◌, ◌++◌,
  Option, none, some, if◌then◌else◌, ltb, leb, ◌==◌, bit_and, bit_xor, length, take, drop,
}
use oxinode.Prelude.Finds.{same}
use oxinode.Hash.{le_bytes, le_word}

abbrev pub winbond : ℕ
winbond = 239

abbrev pub capacity : ℕ
capacity = 16 * 1024 * 1024

abbrev pub sector_len : ℕ
sector_len = 4096

abbrev pub test_sector : ℕ
test_sector = capacity - sector_len

pub record Identity : Type 0 where
  pub manufacturer : ℕ
  pub memory_type : ℕ
  pub capacity_code : ℕ

pub data Verdict : Type 0 where
  w25q128 other silent : Verdict

unfoldable pub capacity_bytes : Identity → Option ℕ
capacity_bytes id =
    if leb 16 id.capacity_code && leb id.capacity_code 31
    then some (2 ^ id.capacity_code % 2 ^ 32)
    else none

abbrev is_capacity : Option ℕ → Bool
is_capacity none = false
is_capacity (some bytes) = bytes == capacity

abbrev is_all : ℕ → Identity → Bool
is_all b id = id.manufacturer == b && id.memory_type == b && id.capacity_code == b

unfoldable pub verdict : Identity → Verdict
unfolding capacity_bytes
verdict id =
    if is_all 0 id || is_all 255 id
    then silent
    else if id.manufacturer == winbond
        && (id.memory_type == 64 || id.memory_type == 112)
        && is_capacity (capacity_bytes id)
    then w25q128
    else other

pub record Status : Type 0 where
  pub sr1 : ℕ
  pub sr2 : ℕ

unfoldable pub busy : Status → Bool
busy s = not (bit_and s.sr1 1 == 0)

unfoldable pub write_enabled : Status → Bool
write_enabled s = not (bit_and s.sr1 2 == 0)

unfoldable pub quad_enabled : Status → Bool
quad_enabled s = not (bit_and s.sr2 2 == 0)

-- `oxinode1`.
abbrev pub magic : List ℕ
magic = 111 ∷ 120 ∷ 105 ∷ 110 ∷ 111 ∷ 100 ∷ 101 ∷ 49 ∷ []

abbrev pub header_len : ℕ
header_len = 12

abbrev shifted : ℕ → ℕ
shifted x =
    let a = bit_xor x (x * 2 ^ 13 % 2 ^ 32) in
    let b = bit_xor a (a / 2 ^ 17) in bit_xor b (b * 2 ^ 5 % 2 ^ 32)

unfoldable pub step : ℕ → ℕ
step x = shifted (if x == 0 then 0x6F78696E else x)

-- The loop of `fill` over the bytes behind the header.
unfoldable pub generated : ℕ → List ℕ → List ℕ
unfolding step
generated x [] = []
generated x (_ ∷ bytes) = let next = step x in next % 256 ∷ generated next bytes

unfoldable pub fill : List ℕ → ℕ → List ℕ
unfolding generated le_bytes
fill sector seed =
    take (min header_len (length sector)) (magic ++ le_bytes 4 seed)
    ++ generated seed (drop header_len sector)

pub data Found : Type 0 where
  erased foreign : Found
  pattern_of : (seed wrong : ℕ) → Option ℕ → Found

unfoldable pub is_erased : List ℕ → Bool
is_erased [] = true
is_erased (b ∷ bytes) = b == 255 && is_erased bytes

abbrev or_insert : Option ℕ → ℕ → Option ℕ
or_insert none i = some i
or_insert (some first) i = some first

-- The loop of `check` over the bytes behind the header, from the `i`th on.
unfoldable pub compare : (x i wrong : ℕ) → Option ℕ → List ℕ → ℕ × Option ℕ
unfolding step
compare x i wrong first [] = (wrong, first)
compare x i wrong first (b ∷ bytes) =
    let next = step x in
    let bad = not (b == next % 256) in
    compare next (i + 1) (if bad then wrong + 1 else wrong)
      (if bad then or_insert first i else first) bytes

unfoldable pub check : List ℕ → Found
unfolding is_erased compare le_word
check sector =
    if is_erased sector
    then erased
    else if ltb (length sector) header_len || not (same (take 8 sector) magic)
    then foreign
    else let seed = le_word sector 8 in
      let (wrong, first) = compare seed header_len 0 none (drop header_len sector) in
      pattern_of seed wrong first
