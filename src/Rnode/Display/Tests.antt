-- ===== src/Rnode/Display/Tests.antt =====
-- A line written into an empty picture.
use oxinode.Prelude.{
  ◌+◌, ◌*◌, ◌||◌, ◌/◌, true, false, [], ◌∷◌, Bytes, get_or, if◌then◌else◌, ◌==◌, ◌≡◌, refl, arith,
}
use oxinode.Sh1107
use oxinode.Sh1107.{has_bit}
use oxinode.Sh1107.Pixels.{new-IsFrame}
use oxinode.Rnode.Display.Panel.{draw, read_display}
use oxinode.Rnode.Display.Doubled.{draw-pixel}
use oxinode.Rnode.Display.Readback.{read_display-pixel}
use oxinode.Rnode.Display
use oxinode.Rnode.Display.{External, write_line, pixel, mask}
use oxinode.Rnode.Display.Lines.{IsPicture, bit_at, write_line-pixel}

abbrev line_bytes : Bytes
line_bytes = 0x80 ∷ 1 ∷ 0 ∷ 0 ∷ 0 ∷ 0 ∷ 0 ∷ 0xFF ∷ []

abbrev drawn : External
drawn = (write_line 3 line_bytes Display.new).0

leftmost : pixel drawn 0 3 ≡ true
unfolding pixel write_line Display.new
leftmost = refl

fifteenth : pixel drawn 15 3 ≡ true
unfolding pixel write_line Display.new
fifteenth = refl

above : pixel drawn 0 2 ≡ false
unfolding pixel write_line Display.new
above = refl

refused_line : (write_line 64 line_bytes Display.new).1 ≡ false
unfolding write_line Display.new
refused_line = refl

new-IsPicture : IsPicture Display.new
unfolding Display.new
new-IsPicture = refl

write_line-pixel_example :
    pixel (write_line 3 line_bytes Display.new).0 0 3
    ≡ (if 3 == 3 then bit_at 0 (get_or line_bytes (0 / 8) 0) else pixel Display.new 0 3)
write_line-pixel_example =
    write_line-pixel 3 line_bytes Display.new 0 3 new-IsPicture (omega arith) (omega arith)
      (omega arith) (omega arith)

draw-pixel_example : Sh1107.pixel 31 7 (draw drawn Sh1107.new) ≡ pixel drawn (31 / 2) (7 / 2)
draw-pixel_example = draw-pixel drawn Sh1107.new 31 7 new-IsFrame (omega arith) (omega arith)

read_display-pixel_example : has_bit (get_or (read_display Sh1107.new) (1 * 128 + 5) 0) 3 ≡ (
    Sh1107.pixel 5 ((1 * 8 + 3) * 2) Sh1107.new || Sh1107.pixel 5 ((1 * 8 + 3) * 2 + 1) Sh1107.new)
read_display-pixel_example =
    read_display-pixel Sh1107.new 1 5 3 (omega arith) (omega arith) (omega arith)
