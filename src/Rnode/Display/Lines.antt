-- ===== src/Rnode/Display/Lines.antt =====
-- A line that is written is the line that is shown, and no other line changes.
use oxinode.Prelude.{
  ℕ, ◌+◌, ◌-◌, ◌*◌, ◌/◌, ◌%◌, ◌^◌, ◌≤◌, ◌<◌, Bool, not, Bytes, take, length, get_or, length-take,
  if◌then◌else◌, ◌==◌, bit_and, ◌≡◌, ◌≢◌, refl, true, sym, write_at, ap, ◌∙◌, arith, Bool-cases,
  ◌⊎◌, inl, inr,
}
use oxinode.Prelude.Bits.{holds_from, holds_from-at}
use oxinode.Prelude.Reads.{
  get_or-take, get_or-write_at_inside, get_or-write_at_before, get_or-write_at_after,
}
use oxinode.Rnode.Display.{External, write_line, pixel, mask, fb_len}

abbrev pub IsPicture : External → Type 0
IsPicture e = length e.buf ≡ fb_len

-- The bit of a byte that stands for a column of a line: the highest bit for the first of its columns.
abbrev pub bit_at : ℕ → ℕ → Bool
bit_at x byte = not (bit_and byte (2 ^ (7 - x % 8)) == 0)

all_masks : holds_from (λ j. 0x80 / 2 ^ j == 2 ^ (7 - j)) 0 8 ≡ true
unfolding holds_from
all_masks = refl

mask_lem : (x : ℕ) → mask x ≡ 2 ^ (7 - x % 8)
unfolding mask
mask_lem x =
    let here = holds_from-at (λ j. 0x80 / 2 ^ j == 2 ^ (7 - j)) 8 (x % 8) (omega arith) all_masks in
    ground arith

abbrev written : ℕ → Bytes → External → Bytes
written line bytes e = (write_line line bytes e).0.buf

pixel-bit_at :
    (e : External) (x y : ℕ)
    → x < 64
    → y < 64
    → pixel e x y ≡ bit_at x (get_or e.buf (y * 8 + x / 8) 0)
unfolding pixel
pixel-bit_at e x y hx hy = let bit = mask_lem x in ground (arith, bit)

written-write_at :
    (line : ℕ) (bytes : Bytes) (e : External)
    → line < 64
    → 8 ≤ length bytes
    → written line bytes e ≡ write_at (line * 8) (take 8 bytes) e.buf
unfolding write_line
written-write_at line bytes e inside enough = ground arith

module _ (line : ℕ) (bytes : Bytes) (e : External) (size : IsPicture e) (inside : line < 64)
    (enough : 8 ≤ length bytes) where
  written-same :
      (x : ℕ) → x < 64 → get_or (written line bytes e) (line * 8 + x / 8) 0 ≡ get_or bytes (x / 8) 0
  written-same x hx =
      ap (λ b. get_or b (line * 8 + x / 8) 0) (written-write_at line bytes e inside enough)
      ∙ get_or-write_at_inside (line * 8) (x / 8) (take 8 bytes) e.buf 0
          (omega (arith, length-take 8 bytes)) (omega arith)
      ∙ get_or-take bytes 8 (x / 8) 0 (omega arith)

  written-other :
      (k : ℕ)
      → (k < line * 8) ⊎ (line * 8 + 8 ≤ k)
      → get_or (written line bytes e) k 0 ≡ get_or e.buf k 0
  written-other k (inl before) =
      ap (λ b. get_or b k 0) (written-write_at line bytes e inside enough)
      ∙ get_or-write_at_before (line * 8) k (take 8 bytes) e.buf 0 before (omega arith)
  written-other k (inr after) =
      ap (λ b. get_or b k 0) (written-write_at line bytes e inside enough)
      ∙ get_or-write_at_after (line * 8) k (take 8 bytes) e.buf 0
          (omega (arith, length-take 8 bytes)) (omega arith)

apart :
    (line y x : ℕ) → x < 64 → y ≢ line → (y * 8 + x / 8 < line * 8) ⊎ (line * 8 + 8 ≤ y * 8 + x / 8)
apart line y x hx h = omega arith

-- After a line of eight bytes or more is written, column `x` of that line shows bit `7 - x % 8` of byte
-- `x / 8`, so the first column the highest bit of the first byte, and every other line shows what it
-- showed before.
pub write_line-pixel :
    (line : ℕ) (bytes : Bytes) (e : External) (x y : ℕ)
    → IsPicture e
    → line < 64
    → 8 ≤ length bytes
    → x < 64
    → y < 64
    → pixel (write_line line bytes e).0 x y
      ≡ (if y == line then bit_at x (get_or bytes (x / 8) 0) else pixel e x y)
write_line-pixel line bytes e x y size inside enough hx hy =
    pixel-bit_at (write_line line bytes e).0 x y hx hy ∙ elim (Bool-cases (y == line)) [
      | inl same ↦ rw same (
          ap (λ l. bit_at x (get_or (written line bytes e) (l * 8 + x / 8) 0)) {y = line}
            (ground arith)
          ∙ ap (bit_at x) (written-same line bytes e size inside enough x hx))
      | inr other ↦ rw other (
          ap (bit_at x) (
            written-other line bytes e size inside enough (y * 8 + x / 8)
              (apart line y x hx (λ eq. ground arith)))
          ∙ sym (pixel-bit_at e x y hx hy))
    ]
