-- ===== src/W25q/Pattern.antt =====
-- A sector that was filled is recognised, and a wrong byte of it is seen.
use oxinode.Prelude.{
  ℕ, ◌+◌, ◌%◌, ◌^◌, ◌≤◌, ◌<◌, min, Bool, false, not, ◌||◌, List, [], ◌∷◌, ◌++◌, Option, none, ◌≡◌,
  refl, sym, subst, ap, ◌∙◌, arith, if◌then◌else◌, ltb, ◌==◌, length, drop,
}
use oxinode.Prelude.Finds.{same}
use oxinode.Hash.{le_bytes, le_word}
use oxinode.W25q.{
  magic, step, generated, fill, foreign, pattern_of, is_erased, or_insert, compare, check,
}

compare-generated :
    (x i wrong : ℕ) (first : Option ℕ) (bytes : List ℕ)
    → compare x i wrong first (generated x bytes) ≡ (wrong, first)
unfolding compare generated
compare-generated x i wrong first [] = refl
compare-generated x i wrong first (b ∷ bytes) =
    let next = step x in
    let Goal : Bool → Type 0 = λ bad.
      compare next (i + 1) (if bad then wrong + 1 else wrong)
        (if bad then or_insert first i else first) (generated next bytes)
      ≡ (wrong, first) in
    let right : not (next % 256 == next % 256) ≡ false = ground arith in
    subst Goal (sym right) (compare-generated next (i + 1) wrong first bytes)

-- What `check` says of a header with a seed and the bytes behind it.
check-header :
    (seed : ℕ) (bytes : List ℕ)
    → seed < 2 ^ 32
    → let (wrong, first) = compare seed 12 0 none bytes in
      check (magic ++ (le_bytes 4 seed ++ bytes)) ≡ pattern_of seed wrong first
unfolding check is_erased le_word le_bytes same
check-header seed bytes h =
    let (wrong, first) = compare seed 12 0 none bytes in
    let whole : ltb (length (magic ++ (le_bytes 4 seed ++ bytes))) 12 ≡ false = ground arith in
    let back : le_word (magic ++ (le_bytes 4 seed ++ bytes)) 8 ≡ seed = omega arith in
    let Goal : Bool → ℕ → Type 0 = λ short read.
      (if short || false
        then foreign
        else pattern_of read (compare read 12 0 none bytes).0 (compare read 12 0 none bytes).1)
      ≡ pattern_of seed wrong first in
    subst (λ b. Goal b (le_word (magic ++ (le_bytes 4 seed ++ bytes)) 8)) (sym whole)
      (subst (Goal false) (sym back) refl)

-- Fill a sector of twelve bytes or more from any seed; what is read back is the pattern of that seed, with
-- no wrong byte.
check-fill :
    (sector : List ℕ) (seed : ℕ)
    → seed < 2 ^ 32
    → 12 ≤ length sector
    → check (fill sector seed) ≡ pattern_of seed 0 none
unfolding fill le_bytes
check-fill sector seed h long =
    let n : min 12 (length sector) ≡ 12 = omega arith in
    let clean = compare-generated seed 12 0 none (drop 12 sector) in
    rw n (
      check-header seed (generated seed (drop 12 sector)) h
      ∙ ap (λ (r : ℕ × Option ℕ). pattern_of seed r.0 r.1) clean)
