-- ===== src/Sh1107/Pixels.antt =====
-- A pixel that is set is the pixel that is read, and no other changes.
use oxinode.Prelude.{
  bit_or, replicate, ℕ, ◌+◌, ◌*◌, ◌/◌, ◌%◌, ◌^◌, ◌<◌, Bool, true, false, not, ◌&&◌, some, Bytes,
  length, length-set, get_or, set, get_or-set_self, get_or-set_ne, if◌then◌else◌, ltb, ◌==◌, ◌≡◌,
  refl, sym, ap, ◌∙◌, subst, arith, Bool-cases, inl, inr,
}
use oxinode.Prelude.Reads.{get_or-replicate}
use oxinode.Prelude.Bits.{holds_from, holds_from-at}
use oxinode.Sh1107.{
  new, Frame, ram_position, set_pixel, pixel, put, set_at, pixel_at, with_bit, has_bit,
}

-- A frame of 2048 bytes.
abbrev pub IsFrame : Frame → Type 0
IsFrame f = (length f.buf ≡ 2048) × ((i : ℕ) → get_or f.buf i 0 < 256)

pub new-IsFrame : IsFrame new
unfolding new
new-IsFrame = (
  refl,
  λ i.
      let none_lit : ℕ = 0 in
      let dark : get_or (replicate 2048 none_lit) i none_lit ≡ none_lit =
        get_or-replicate 2048 i none_lit in
      omega (arith, dark),
)

abbrev eqb : Bool → Bool → Bool
eqb true b = b
eqb false b = not b

abbrev bit_test : Bool → ℕ → ℕ → ℕ → Bool
bit_test on byte i j =
    eqb (has_bit (with_bit byte i on) j) (if i == j then on else has_bit byte j)
    && ltb (with_bit byte i on) 256

abbrev byte_test : Bool → ℕ → Bool
byte_test on byte = holds_from (λ i. holds_from (bit_test on byte i) 0 8) 0 8

bytes_on : holds_from (byte_test true) 0 256 ≡ true
unfolding holds_from with_bit has_bit
bytes_on = refl

bytes_off : holds_from (byte_test false) 0 256 ≡ true
unfolding holds_from with_bit has_bit
bytes_off = refl

bytes_all : (on : Bool) → holds_from (byte_test on) 0 256 ≡ true
bytes_all true = bytes_on
bytes_all false = bytes_off

eqb-eq : (a b : Bool) → eqb a b ≡ true → a ≡ b
eqb-eq true true h = refl
eqb-eq true false h = cc
eqb-eq false true h = cc
eqb-eq false false h = refl

bit_test-holds :
    (on : Bool) (byte i j : ℕ) → byte < 256 → i < 8 → j < 8 → bit_test on byte i j ≡ true
bit_test-holds on byte i j hb hi hj = holds_from-at (bit_test on byte i) 8 j hj (
    holds_from-at (λ i. holds_from (bit_test on byte i) 0 8) 8 i hi
      (holds_from-at (byte_test on) 256 byte hb (bytes_all on)))

and-left : (a b : Bool) → a && b ≡ true → a ≡ true
and-left true b h = refl
and-left false b h = h

and-right : (a b : Bool) → a && b ≡ true → b ≡ true
and-right true b h = h
and-right false b h = cc

pub has_bit-with_bit :
    (on : Bool) (byte i j : ℕ)
    → byte < 256
    → i < 8
    → j < 8
    → has_bit (with_bit byte i on) j ≡ (if i == j then on else has_bit byte j)
has_bit-with_bit on byte i j hb hi hj =
    eqb-eq _ _ (and-left _ (ltb (with_bit byte i on) 256) (bit_test-holds on byte i j hb hi hj))

pub with_bit-small : (on : Bool) (byte i : ℕ) → byte < 256 → i < 8 → with_bit byte i on < 256
with_bit-small on byte i hb hi =
    let t =
      and-right _ (ltb (with_bit byte i on) 256) (bit_test-holds on byte i 0 hb hi (omega arith)) in
    ground arith

get_or-set :
    (index after j : ℕ) (bytes : Bytes)
    → index < length bytes
    → get_or (set bytes index after) j 0 ≡ (if index == j then after else get_or bytes j 0)
get_or-set index after j bytes h = elim (Bool-cases (index == j)) [
  | inl same ↦ rw same (
      ap (λ k. get_or (set bytes index after) k 0) {y = index} (ground arith)
      ∙ get_or-set_self bytes index after 0 h)
  | inr other ↦ rw other (get_or-set_ne bytes after 0 (λ eq. ground arith))
]

unchanged :
    (index after j : ℕ) (bytes : Bytes)
    → after ≡ get_or bytes index 0
    → get_or bytes j 0 ≡ (if index == j then after else get_or bytes j 0)
unchanged index after j bytes e = elim (Bool-cases (index == j)) [
  | inl same ↦ rw same (ap (λ k. get_or bytes k 0) {x = j} {y = index} (ground arith) ∙ sym e)
  | inr other ↦ rw other refl
]

get_or-put :
    (index after j : ℕ) (f : Frame)
    → index < length f.buf
    → get_or (put index after f).buf j 0 ≡ (if index == j then after else get_or f.buf j 0)
unfolding put
get_or-put index after j f h =
    let written : Frame = record {
      buf = set f.buf index after;
      dirty = bit_or f.dirty (2 ^ (index / 128));
    } in
    let wanted : ℕ = if index == j then after else get_or f.buf j 0 in
    let Goal : Bool → Type 0 = λ b. get_or (if not b then written else f).buf j 0 ≡ wanted in
    elim (Bool-cases (after == get_or f.buf index 0)) [
      | inl same ↦ subst Goal (sym same) (unchanged index after j f.buf (ground arith))
      | inr other ↦ subst Goal (sym other) (get_or-set index after j f.buf h)
    ]

position : (x y : ℕ) → x < 128 → y < 128 → ram_position x y ≡ some (y / 8 * 128 + x, y % 8)
unfolding ram_position
position x y hx hy = ground arith

same_test :
    (x y x' y' : ℕ)
    → x < 128
    → x' < 128
    → y / 8 * 128 + x ≡ y' / 8 * 128 + x'
    → (y % 8 == y' % 8) ≡ (x == x' && y == y')
same_test x y x' y' h k e =
    let ex : x ≡ x' = omega arith in
    let ey : y / 8 ≡ y' / 8 = omega arith in
    elim (Bool-cases (y == y')) [ inl same ↦ ground arith | inr other ↦ ground arith ]

other_test :
    (x y x' y' : ℕ) → (y / 8 * 128 + x == y' / 8 * 128 + x') ≡ false → (x == x' && y == y') ≡ false
other_test x y x' y' h = ground arith

-- The byte and the bit of a pixel, as the two coordinates say.
module _ (x y : ℕ) (on : Bool) (f : Frame) (ok : IsFrame f) (hx : x < 128) (hy : y < 128) where
  abbrev index : ℕ
  index = y / 8 * 128 + x

  abbrev byte : ℕ
  byte = get_or f.buf index 0

  set_pixel-put : set_pixel x y on f ≡ put index (with_bit byte (y % 8) on) f
  unfolding set_pixel
  set_pixel-put = ap (λ at. set_at at on f) (position x y hx hy)

  pixel-bit :
      (q : Frame) (x' y' : ℕ)
      → x' < 128
      → y' < 128
      → pixel x' y' q ≡ has_bit (get_or q.buf (y' / 8 * 128 + x') 0) (y' % 8)
  unfolding pixel
  pixel-bit q x' y' h k = ap (λ at. pixel_at at q) (position x' y' h k)

  set_pixel-byte :
      (j : ℕ)
      → get_or (set_pixel x y on f).buf j 0
        ≡ (if index == j then with_bit byte (y % 8) on else get_or f.buf j 0)
  set_pixel-byte j =
      ap (λ q. get_or q.buf j 0) set_pixel-put
      ∙ get_or-put index (with_bit byte (y % 8) on) j f (omega (arith, ok.0))

  changed :
      (x' y' : ℕ)
      → x' < 128
      → y' < 128
      → pixel x' y' (set_pixel x y on f) ≡ (if x == x' && y == y' then on else pixel x' y' f)
  changed x' y' h k =
      let j : ℕ = y' / 8 * 128 + x' in
      pixel-bit (set_pixel x y on f) x' y' h k
      ∙ ap (λ b. has_bit b (y' % 8)) (set_pixel-byte j)
      ∙ elim (Bool-cases (index == j)) [
        | inl same ↦ rw same (
            has_bit-with_bit on byte (y % 8) (y' % 8) (ok.1 index) (omega arith) (omega arith)
            ∙ ap (λ b. if b then on else has_bit byte (y' % 8))
                (same_test x y x' y' hx h (ground arith))
            ∙ ap (λ b. if x == x' && y == y' then on else b)
                (ap (λ i. has_bit (get_or f.buf i 0) (y' % 8)) {y = j} (ground arith)
                  ∙ sym (pixel-bit f x' y' h k)))
        | inr other ↦ rw other (
            sym (pixel-bit f x' y' h k)
            ∙ ap (λ b. if b then on else pixel x' y' f) (sym (other_test x y x' y' other)))
      ]

put-length : (index after : ℕ) (f : Frame) → length (put index after f).buf ≡ length f.buf
unfolding put
put-length index after f = ground (arith, length-set f.buf index after)

pub set_pixel-IsFrame :
    (x y : ℕ) (on : Bool) (f : Frame) → IsFrame f → x < 128 → y < 128 → IsFrame (set_pixel x y on f)
set_pixel-IsFrame x y on f ok hx hy =
    let bit = with_bit (byte x y on f ok hx hy) (y % 8) on in
    (
      ap (λ q. length q.buf) (set_pixel-put x y on f ok hx hy)
          ∙ put-length (index x y on f ok hx hy) bit f
          ∙ ok.0,
      λ i.
          let small = with_bit-small on (byte x y on f ok hx hy) (y % 8) (ok.1 _) (omega arith) in
          let old = ok.1 i in ground (arith, set_pixel-byte x y on f ok hx hy i),
    )

-- After a pixel of the panel is set, it reads as it was set, every other pixel reads as before, and the
-- bytes are bytes.
pub set_pixel-pixel :
    (x y x' y' : ℕ) (on : Bool) (f : Frame)
    → IsFrame f
    → x < 128
    → y < 128
    → x' < 128
    → y' < 128
    → (pixel x' y' (set_pixel x y on f) ≡ (if x == x' && y == y' then on else pixel x' y' f))
      × IsFrame (set_pixel x y on f)
set_pixel-pixel x y x' y' on f ok hx hy h k =
    (changed x y on f ok hx hy x' y' h k, set_pixel-IsFrame x y on f ok hx hy)
