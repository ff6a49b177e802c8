-- ===== src/Rnode/Display/Panel.antt =====
-- core/src/rnode/display.rs: the picture of the host on the panel, and the panel as a host reads it.
use oxinode.Prelude.{ℕ, zero, suc, ◌+◌, ◌*◌, ◌^◌, ◌||◌, [], ◌∷◌, ◌++◌, Bytes, if◌then◌else◌, bit_or}
use oxinode.Rnode.Display.{External, pixel}
use oxinode.Sh1107
use oxinode.Sh1107.{Frame, set_pixel}

-- `FB_SCALE` is 2: the two inner loops of `draw`.
unfoldable pub draw_block : External → (x y : ℕ) → Frame → Frame
unfolding pixel set_pixel
draw_block e x y f =
    let on = pixel e x y in
    let top = set_pixel (x * 2 + 1) (y * 2) on (set_pixel (x * 2) (y * 2) on f) in
    set_pixel (x * 2 + 1) (y * 2 + 1) on (set_pixel (x * 2) (y * 2 + 1) on top)

-- `count` blocks of a row from `x` on, and `count` rows from `y` on.
unfoldable pub draw_row : External → (count x y : ℕ) → Frame → Frame
unfolding draw_block
draw_row e zero x y f = f
draw_row e (suc count) x y f = draw_row e count (x + 1) y (draw_block e x y f)

unfoldable pub draw_rows : External → (count y : ℕ) → Frame → Frame
unfolding draw_row
draw_rows e zero y f = f
draw_rows e (suc count) y f = draw_rows e count (y + 1) (draw_row e 64 0 y f)

unfoldable pub draw : External → Frame → Frame
unfolding draw_rows
draw e f = draw_rows e 64 0 f

-- The loop over the bits of a byte of `read_display`, from `bit` on.
unfoldable pub read_bits : Frame → (page column count bit byte : ℕ) → ℕ
unfolding Sh1107.pixel
read_bits f page column zero bit byte = byte
read_bits f page column (suc count) bit byte =
    let y : ℕ = (page * 8 + bit) * 2 in
    let lit = Sh1107.pixel column y f || Sh1107.pixel column (y + 1) f in
    read_bits f page column count (bit + 1) (if lit then bit_or byte (2 ^ bit) else byte)

-- The bytes are written in their order, page by page.
unfoldable pub read_columns : Frame → (page count column : ℕ) → Bytes
unfolding read_bits
read_columns f page zero column = []
read_columns f page (suc count) column =
    read_bits f page column 8 0 0 ∷ read_columns f page count (column + 1)

unfoldable pub read_pages : Frame → (count page : ℕ) → Bytes
unfolding read_columns
read_pages f zero page = []
read_pages f (suc count) page = read_columns f page 128 0 ++ read_pages f count (page + 1)

unfoldable pub read_display : Frame → Bytes
unfolding read_pages
read_display f = read_pages f 8 0
