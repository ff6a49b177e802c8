-- ===== src/Rnode/Air/Header.antt =====
-- The header byte and the sequence nibble.
use oxinode.Prelude.{
  ℕ, zero, suc, ◌+◌, ◌%◌, ◌<◌, Bool, true, false, not, ◌&&◌, ◌≡◌, refl, arith, ◌==◌, ◌≢◌, ltb,
  ltb→lt, ==_iff, if◌then◌else◌, ap, ◌∙◌,
}
use oxinode.Prelude.Bits.{holds_from, holds_from-at}
use oxinode.Rnode.Air.{header, sequence_of, is_split, new_sequence, take_sequence}

abbrev reads_back : Bool → ℕ → Bool
reads_back split s =
    let h = header s split in sequence_of h == s && (if split then is_split h else not (is_split h))

abbrev table : Bool → Bool
table split = holds_from (reads_back split) 0 16

tables : (split : Bool) → table split ≡ true
unfolding holds_from header sequence_of is_split
tables true = refl
tables false = refl

-- A header gives back the nibble and the flag it was made of.
pub header_lem :
    (s : ℕ) (split : Bool)
    → s < 16
    → (sequence_of (header s split) ≡ s) × (is_split (header s split) ≡ split)
header_lem s true h = let e = holds_from-at (reads_back true) 16 s h (tables true) in ground arith
header_lem s false h =
    let e = holds_from-at (reads_back false) 16 s h (tables false) in ground arith

next_table : holds_from (λ n. (take_sequence n).1 == (n + 1) % 16) 0 16 ≡ true
unfolding holds_from take_sequence
next_table = refl

take_sequence_next : (n : ℕ) → n < 16 → (take_sequence n).1 ≡ (n + 1) % 16
take_sequence_next n h =
    (==_iff _ _).0 (holds_from-at (λ m. (take_sequence m).1 == (m + 1) % 16) 16 n h next_table)

-- The sequence behind `k` packets, which is the nibble that packet `k` is given.
unfoldable pub behind : ℕ → ℕ → ℕ
behind zero n = n
behind (suc k) n = behind k (take_sequence n).1

behind_lem : (k n : ℕ) → n < 16 → behind k n ≡ (n + k) % 16
unfolding behind
behind_lem zero n h = omega arith
behind_lem (suc k) n h =
    ap (behind k) (take_sequence_next n h) ∙ behind_lem k ((n + 1) % 16) (omega arith) ∙ omega arith

new_table : holds_from (λ seed. ltb (new_sequence seed) 16) 0 256 ≡ true
unfolding holds_from new_sequence
new_table = refl

new_sequence-lt : (seed : ℕ) → seed < 256 → new_sequence seed < 16
new_sequence-lt seed h =
    ltb→lt _ _ (holds_from-at (λ s. ltb (new_sequence s) 16) 256 seed h new_table)

-- From any seed, fewer than sixteen packets apart no two are given the same nibble, and sixteen
-- packets apart they are.
pub behind_ne :
    (seed i k : ℕ)
    → seed < 256
    → 0 < k
    → k < 16
    → let n = new_sequence seed in
      (behind i n ≢ behind (i + k) n) × (behind (i + 16) n ≡ behind i n) × (behind i n < 16)
behind_ne seed i k s h j =
    let n = new_sequence seed in
    let small = new_sequence-lt seed s in
    let a = behind_lem i n small in
    let b = behind_lem (i + k) n small in
    let c = behind_lem (i + 16) n small in (omega arith, omega arith, omega arith)
