-- ===== src/Rnode/Display/Doubled.antt =====
-- The picture of a host fills the panel, each of its pixels as a block of two by two.
use oxinode.Prelude.{
  ℕ, zero, suc, ◌+◌, ◌*◌, ◌/◌, ◌≤◌, ◌<◌, Bool, true, ◌&&◌, if◌then◌else◌, ltb, leb, ◌==◌, ◌≡◌, refl,
  ap, ap₂, ◌∙◌, arith, Bool-cases, inl, inr,
}
use oxinode.Rnode.Display
use oxinode.Rnode.Display.{External}
use oxinode.Rnode.Display.Panel.{draw_block, draw_row, draw_rows, draw}
use oxinode.Sh1107.{Frame, set_pixel, pixel}
use oxinode.Sh1107.Pixels.{IsFrame, set_pixel-pixel}

four_tests :
    (x y a b : ℕ) (on d : Bool)
    → (if x * 2 + 1 == a && y * 2 + 1 == b
        then on
        else if x * 2 == a && y * 2 + 1 == b
        then on
        else if x * 2 + 1 == a && y * 2 == b
        then on
        else if x * 2 == a && y * 2 == b
        then on
        else d)
      ≡ (if a / 2 == x && b / 2 == y then on else d)
four_tests x y a b on d = ground arith

module _ (e : External) (a b : ℕ) (ha : a < 128) (hb : b < 128) where
  -- What a place shows once the blocks that a test names are drawn.
  abbrev Shows : Bool → Frame → Frame → Type 0
  Shows drawn f g =
      (pixel a b g ≡ (if drawn then Display.pixel e (a / 2) (b / 2) else pixel a b f)) × IsFrame g

  own_block :
      (x y : ℕ) (d : Bool)
      → (if a / 2 == x && b / 2 == y then Display.pixel e x y else d)
        ≡ (if a / 2 == x && b / 2 == y then Display.pixel e (a / 2) (b / 2) else d)
  own_block x y d = elim (Bool-cases (a / 2 == x && b / 2 == y)) [
    | inl hit ↦
        let ex : x ≡ a / 2 = ground arith in
        let ey : y ≡ b / 2 = ground arith in
        ap₂ (λ u v. if a / 2 == x && b / 2 == y then Display.pixel e u v else d) ex ey
    | inr miss ↦ rw miss refl
  ]

  row_tests :
      (x y count : ℕ) (lit d : Bool)
      → (if leb (x + 1) (a / 2) && ltb (a / 2) (x + 1 + count) && b / 2 == y
          then lit
          else if a / 2 == x && b / 2 == y
          then lit
          else d)
        ≡ (if leb x (a / 2) && ltb (a / 2) (x + suc count) && b / 2 == y then lit else d)
  row_tests x y count lit d = ground arith

  rows_tests :
      (y count : ℕ) (lit d : Bool)
      → (if leb (y + 1) (b / 2) && ltb (b / 2) (y + 1 + count)
          then lit
          else if leb 0 (a / 2) && ltb (a / 2) (0 + 64) && b / 2 == y
          then lit
          else d)
        ≡ (if leb y (b / 2) && ltb (b / 2) (y + suc count) then lit else d)
  rows_tests y count lit d = ground arith

  draw_block-Shows :
      (x y : ℕ) (f : Frame)
      → IsFrame f
      → x < 64
      → y < 64
      → Shows (a / 2 == x && b / 2 == y) f (draw_block e x y f)
  unfolding draw_block
  draw_block-Shows x y f ok hx hy =
      let on : Bool = Display.pixel e x y in
      let f1 : Frame = set_pixel (x * 2) (y * 2) on f in
      let p1 = set_pixel-pixel (x * 2) (y * 2) a b on f ok (omega arith) (omega arith) ha hb in
      let f2 : Frame = set_pixel (x * 2 + 1) (y * 2) on f1 in
      let p2 =
        set_pixel-pixel (x * 2 + 1) (y * 2) a b on f1 p1.1 (omega arith) (omega arith) ha hb in
      let f3 : Frame = set_pixel (x * 2) (y * 2 + 1) on f2 in
      let p3 =
        set_pixel-pixel (x * 2) (y * 2 + 1) a b on f2 p2.1 (omega arith) (omega arith) ha hb in
      let p4 =
        set_pixel-pixel (x * 2 + 1) (y * 2 + 1) a b on f3 p3.1 (omega arith) (omega arith) ha hb in
      (
        p4.0
            ∙ ap (λ d. if x * 2 + 1 == a && y * 2 + 1 == b then on else d)
                (p3.0
                  ∙ ap (λ d. if x * 2 == a && y * 2 + 1 == b then on else d)
                      (p2.0 ∙ ap (λ d. if x * 2 + 1 == a && y * 2 == b then on else d) p1.0))
            ∙ four_tests x y a b on (pixel a b f)
            ∙ own_block x y (pixel a b f),
        p4.1,
      )

  draw_row-Shows :
      (count x y : ℕ) (f : Frame)
      → IsFrame f
      → x + count ≤ 64
      → y < 64
      → Shows (leb x (a / 2) && ltb (a / 2) (x + count) && b / 2 == y) f (draw_row e count x y f)
  unfolding draw_row
  draw_row-Shows zero x y f ok hx hy = (ground arith, ok)
  draw_row-Shows (suc count) x y f ok hx hy =
      let block = draw_block-Shows x y f ok (omega arith) hy in
      let rest = draw_row-Shows count (x + 1) y (draw_block e x y f) block.1 (omega arith) hy in
      (
        rest.0
            ∙ ap
                (λ d.
                  if leb (x + 1) (a / 2) && ltb (a / 2) (x + 1 + count) && b / 2 == y
                  then Display.pixel e (a / 2) (b / 2)
                  else d)
                block.0
            ∙ row_tests x y count (Display.pixel e (a / 2) (b / 2)) (pixel a b f),
        rest.1,
      )

  draw_rows-Shows :
      (count y : ℕ) (f : Frame)
      → IsFrame f
      → y + count ≤ 64
      → Shows (leb y (b / 2) && ltb (b / 2) (y + count)) f (draw_rows e count y f)
  unfolding draw_rows
  draw_rows-Shows zero y f ok hy = (ground arith, ok)
  draw_rows-Shows (suc count) y f ok hy =
      let row = draw_row-Shows 64 0 y f ok (omega arith) (omega arith) in
      let rest = draw_rows-Shows count (y + 1) (draw_row e 64 0 y f) row.1 (omega arith) in
      (
        rest.0
            ∙ ap
                (λ d.
                  if leb (y + 1) (b / 2) && ltb (b / 2) (y + 1 + count)
                  then Display.pixel e (a / 2) (b / 2)
                  else d)
                row.0
            ∙ rows_tests y count (Display.pixel e (a / 2) (b / 2)) (pixel a b f),
        rest.1,
      )

inside : (b : ℕ) → b < 128 → (leb 0 (b / 2) && ltb (b / 2) (0 + 64)) ≡ true
inside b h = ground arith

-- Whatever the panel showed, after the picture of a host is drawn each place of the panel shows the
-- pixel of the picture at half its coordinates.
pub draw-pixel :
    (e : External) (f : Frame) (a b : ℕ)
    → IsFrame f
    → a < 128
    → b < 128
    → pixel a b (draw e f) ≡ Display.pixel e (a / 2) (b / 2)
unfolding draw
draw-pixel e f a b ok ha hb =
    (draw_rows-Shows e a b ha hb 64 0 f ok (omega arith)).0
    ∙ ap (λ t. if t then Display.pixel e (a / 2) (b / 2) else pixel a b f) (inside b hb)
