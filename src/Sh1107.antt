-- ===== src/Sh1107.antt =====
-- core/src/sh1107.rs: the picture of the panel, one bit for each pixel.
pub mod Pixels
mod Tests
use oxinode.Prelude.{
  ℕ, zero, suc, ◌+◌, ◌-◌, ◌*◌, ◌/◌, ◌%◌, ◌^◌, Bool, true, false, not, ◌||◌, List, [], ◌∷◌, Option,
  none, some, Bytes, get_or, set, take, drop, replicate, write_at, min, if◌then◌else◌, ltb, leb,
  ◌==◌, bit_and, bit_or,
}
use oxinode.Prelude.Fields.{slice}
use oxinode.Prelude.Finds.{same}

abbrev pub width : ℕ
width = 128

abbrev pub height : ℕ
height = 128

abbrev pub page_height : ℕ
page_height = 8

abbrev pub pages : ℕ
pages = 16

abbrev pub columns : ℕ
columns = 128

abbrev pub buffer_len : ℕ
buffer_len = 2048

-- `ram_position`, with `PAGE_AXIS_IS_X` false.
unfoldable pub ram_position : (x y : ℕ) → Option (ℕ × ℕ)
ram_position x y =
    if leb width x || leb height y
    then none
    else some (y / page_height * columns + x, y % page_height)

-- A frame, and a bit for each page that has to be sent.
pub record Frame : Type 0 where
  pub buf : Bytes
  pub dirty : ℕ

unfoldable pub new : Frame
unfolding replicate
new = record { buf = replicate buffer_len 0; dirty = 0xFFFF }

unfoldable pub page : ℕ → Frame → Bytes
page p f = slice (p * columns) columns f.buf

unfoldable pub is_dirty : ℕ → Frame → Bool
is_dirty p f = not (bit_and f.dirty (2 ^ p) == 0)

unfoldable pub is_clean : Frame → Bool
is_clean f = f.dirty == 0

-- `!(1 << page)` of 16 bits.
unfoldable pub mark_sent : ℕ → Frame → Frame
mark_sent p f = record f { dirty = bit_and f.dirty (0xFFFF - 2 ^ p) }

unfoldable pub mark_all_dirty : Frame → Frame
mark_all_dirty f = record f { dirty = 0xFFFF }

unfoldable pub with_bit : (byte bit : ℕ) → Bool → ℕ
with_bit byte bit true = bit_or byte (2 ^ bit)
with_bit byte bit false = bit_and byte (255 - 2 ^ bit)

unfoldable pub has_bit : (byte bit : ℕ) → Bool
has_bit byte bit = not (bit_and byte (2 ^ bit) == 0)

-- A byte that changes is written, and its page marked.
unfoldable pub put : (index after : ℕ) → Frame → Frame
put index after f =
    if not (after == get_or f.buf index 0)
    then record { buf = set f.buf index after; dirty = bit_or f.dirty (2 ^ (index / columns)) }
    else f

abbrev pub set_at : Option (ℕ × ℕ) → Bool → Frame → Frame
set_at none on f = f
set_at (some (index, bit)) on f = put index (with_bit (get_or f.buf index 0) bit on) f

unfoldable pub set_pixel : (x y : ℕ) → Bool → Frame → Frame
unfolding ram_position with_bit put
set_pixel x y on f = set_at (ram_position x y) on f

abbrev pub pixel_at : Option (ℕ × ℕ) → Frame → Bool
pixel_at none f = false
pixel_at (some (index, bit)) f = has_bit (get_or f.buf index 0) bit

unfoldable pub pixel : (x y : ℕ) → Frame → Bool
unfolding ram_position has_bit
pixel x y f = pixel_at (ram_position x y) f

-- The pages of the loop of `copy_from`, from `p` on.
unfoldable pub copy_pages : (count p : ℕ) → Frame → Frame → Frame
copy_pages zero p other f = f
copy_pages (suc count) p other f =
    let theirs = slice (p * columns) columns other.buf in
    let copied : Frame = record {
      buf = write_at (p * columns) theirs f.buf;
      dirty = bit_or f.dirty (2 ^ p);
    } in
    let next = if same (slice (p * columns) columns f.buf) theirs then f else copied in
    copy_pages count (p + 1) other next

unfoldable pub copy_from : Frame → Frame → Frame
unfolding copy_pages
copy_from other f = copy_pages pages 0 other f

unfoldable pub fill : Bool → Frame → Frame
unfolding replicate
fill on f = record { buf = replicate buffer_len (if on then 0xFF else 0x00); dirty = 0xFFFF }

-- `count` pixels of a row from `x` on, and `count` rows from `y` on.
unfoldable pub fill_row : (count x y : ℕ) → Bool → Frame → Frame
unfolding set_pixel
fill_row zero x y on f = f
fill_row (suc count) x y on f = fill_row count (x + 1) y on (set_pixel x y on f)

unfoldable pub fill_rows : (count x y w : ℕ) → Bool → Frame → Frame
unfolding fill_row
fill_rows zero x y w on f = f
fill_rows (suc count) x y w on f = fill_rows count x (y + 1) w on (fill_row w x y on f)

-- The ends are `saturating_add`s of a `usize`, cut to the panel.
unfoldable pub rect : (x y w h : ℕ) → Bool → Frame → Frame
unfolding fill_rows
rect x y w h on f = fill_rows (min (y + h) height - y) x y (min (x + w) width - x) on f

unfoldable pub frame_rect : (x y w h : ℕ) → Bool → Frame → Frame
unfolding rect
frame_rect x y w h on f =
    if w == 0 || h == 0
    then f
    else (let top = rect x y w 1 on f in
        let bottom = rect x (y + h - 1) w 1 on top in
        let left = rect x y 1 h on bottom in rect (x + w - 1) y 1 h on left)
