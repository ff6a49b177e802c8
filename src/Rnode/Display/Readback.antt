-- ===== src/Rnode/Display/Readback.antt =====
-- What a host reads of the panel: every pixel that is lit, in rows folded in pairs.
use oxinode.Prelude.{
  ℕ, zero, suc, ◌+◌, ◌*◌, ◌^◌, ◌≤◌, ◌<◌, Bool, true, false, not, ◌&&◌, ◌||◌, ◌++◌, length, get_or,
  if◌then◌else◌, ltb, leb, ◌==◌, bit_or, ◌≡◌, refl, sym, ap, ◌∙◌, arith, Bool-cases, inl, inr,
}
use oxinode.Prelude.Bits.{holds_from, holds_from-at}
use oxinode.Prelude.Reads.{get_or-append_left, get_or-append_right}
use oxinode.Rnode.Display.Panel.{read_bits, read_columns, read_pages, read_display}
use oxinode.Sh1107.{Frame, pixel, has_bit, with_bit}
use oxinode.Sh1107.Pixels.{has_bit-with_bit, with_bit-small}

bit_tests :
    (bit j count : ℕ) (on lit before after : Bool)
    → (bit ≡ j → on ≡ lit)
    → after ≡ (if bit == j then on || before else before)
    → (if leb (bit + 1) j && ltb j (bit + 1 + count) then lit || after else after)
      ≡ (if leb bit j && ltb j (bit + suc count) then lit || before else before)
bit_tests bit j count on lit before after own e = elim (Bool-cases (bit == j)) [
  | inl same ↦ let found : on ≡ lit = own (ground arith) in ground arith
  | inr other ↦ ground arith
]

no_bits : holds_from (λ j. not (has_bit 0 j)) 0 8 ≡ true
unfolding holds_from has_bit
no_bits = refl

last_tests :
    (j : ℕ) (lit : Bool)
    → j < 8
    → (if leb 0 j && ltb j (0 + 8) then lit || has_bit 0 j else has_bit 0 j) ≡ lit
last_tests j lit h =
    let dark : not (has_bit 0 j) ≡ true = holds_from-at (λ j. not (has_bit 0 j)) 8 j h no_bits in
    ground arith

module _ (f : Frame) where
  -- Whether one of the two rows that a bit stands for is lit.
  abbrev lit : (page column bit : ℕ) → Bool
  lit page column bit =
      pixel column ((page * 8 + bit) * 2) f || pixel column ((page * 8 + bit) * 2 + 1) f

  -- The byte with a bit or'ed in.
  abbrev lit_byte : ℕ → ℕ → Bool → ℕ
  lit_byte byte bit on = if on then bit_or byte (2 ^ bit) else byte

  lit_byte-small : (on : Bool) (byte bit : ℕ) → byte < 256 → bit < 8 → lit_byte byte bit on < 256
  unfolding with_bit
  lit_byte-small true byte bit h k = with_bit-small true byte bit h k
  lit_byte-small false byte bit h k = h

  lit_byte-bit :
      (on : Bool) (byte bit j : ℕ)
      → byte < 256
      → bit < 8
      → j < 8
      → has_bit (lit_byte byte bit on) j
        ≡ (if bit == j then on || has_bit byte j else has_bit byte j)
  unfolding with_bit
  lit_byte-bit true byte bit j h k l = has_bit-with_bit true byte bit j h k l
  lit_byte-bit false byte bit j h k l = ground arith

  read_bits-bit :
      (page column count bit byte j : ℕ)
      → byte < 256
      → bit + count ≤ 8
      → j < 8
      → has_bit (read_bits f page column count bit byte) j ≡ (
          if leb bit j && ltb j (bit + count)
          then lit page column j || has_bit byte j
          else has_bit byte j)
  unfolding read_bits
  read_bits-bit page column zero bit byte j h k l = ground arith
  read_bits-bit page column (suc count) bit byte j h k l =
      let on : Bool = lit page column bit in
      let next : ℕ = lit_byte byte bit on in
      read_bits-bit page column count (bit + 1) next j (lit_byte-small on byte bit h (omega arith))
        (omega arith) l
      ∙ bit_tests bit j count on (lit page column j) (has_bit byte j) (has_bit next j)
          (λ s. ap (lit page column) s) (lit_byte-bit on byte bit j h (omega arith) l)

  length-read_columns : (page count column : ℕ) → length (read_columns f page count column) ≡ count
  unfolding read_columns
  length-read_columns page zero column = refl
  length-read_columns page (suc count) column = ap suc (length-read_columns page count (column + 1))

  get_or-read_columns :
      (page count column k : ℕ)
      → k < count
      → get_or (read_columns f page count column) k 0 ≡ read_bits f page (column + k) 8 0 0
  unfolding read_columns
  get_or-read_columns page zero column k h = absurd (omega arith)
  get_or-read_columns page (suc count) column zero h =
      ap (λ c. read_bits f page c 8 0 0) {x = column} {y = column + 0} (omega arith)
  get_or-read_columns page (suc count) column (suc k) h =
      get_or-read_columns page count (column + 1) k (omega arith)
      ∙ ap (λ c. read_bits f page c 8 0 0) {x = column + 1 + k} {y = column + suc k} (omega arith)

  get_or-read_pages :
      (count page p k : ℕ)
      → p < count
      → k < 128
      → get_or (read_pages f count page) (p * 128 + k) 0 ≡ read_bits f (page + p) k 8 0 0
  unfolding read_pages
  get_or-read_pages zero page p k h l = absurd (omega arith)
  get_or-read_pages (suc count) page zero k h l =
      ap (λ i. get_or (read_columns f page 128 0 ++ read_pages f count (page + 1)) i 0)
        {x = 0 * 128 + k} {y = k} (omega arith)
      ∙ get_or-append_left (read_columns f page 128 0) (read_pages f count (page + 1)) k 0
          (omega (arith, length-read_columns page 128 0))
      ∙ get_or-read_columns page 128 0 k l
      ∙ ap (λ c. read_bits f page c 8 0 0) {x = 0 + k} {y = k} (omega arith)
      ∙ ap (λ q. read_bits f q k 8 0 0) {x = page} {y = page + 0} (omega arith)
  get_or-read_pages (suc count) page (suc p) k h l =
      ap (λ i. get_or (read_columns f page 128 0 ++ read_pages f count (page + 1)) i 0)
        {x = suc p * 128 + k} {y = 128 + (p * 128 + k)} (omega arith)
      ∙ get_or-append_right (read_columns f page 128 0) (read_pages f count (page + 1)) 128
          (p * 128 + k) 0 (sym (length-read_columns page 128 0))
      ∙ get_or-read_pages count (page + 1) p k (omega arith) l
      ∙ ap (λ q. read_bits f q k 8 0 0) {x = page + 1 + p} {y = page + suc p} (omega arith)

-- In the bytes that a host reads of the panel, the bit of a column in a page is set exactly if one of
-- the two rows of the panel that it stands for is lit there.
pub read_display-pixel :
    (f : Frame) (p k j : ℕ)
    → p < 8
    → k < 128
    → j < 8
    → has_bit (get_or (read_display f) (p * 128 + k) 0) j
      ≡ (pixel k ((p * 8 + j) * 2) f || pixel k ((p * 8 + j) * 2 + 1) f)
unfolding read_display
read_display-pixel f p k j hp hk hj =
    ap (λ b. has_bit b j)
      (get_or-read_pages f 8 0 p k hp hk
        ∙ ap (λ q. read_bits f q k 8 0 0) {x = 0 + p} {y = p} (omega arith))
    ∙ read_bits-bit f p k 8 0 0 j (omega arith) (omega arith) hj
    ∙ last_tests j (lit f p k j) hj
