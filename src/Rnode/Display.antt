-- ===== src/Rnode/Display.antt =====
-- core/src/rnode/display.rs: the picture that a host pushes in.
pub mod Lines
pub mod Panel
pub mod Doubled
pub mod Readback
mod Tests
use oxinode.Prelude.{
  ℕ, ◌+◌, ◌*◌, ◌/◌, ◌%◌, ◌^◌, Bool, true, false, not, ◌||◌, Bytes, take, replicate, length, get_or,
  write_at, if◌then◌else◌, ltb, leb, ◌==◌, bit_and,
}

abbrev pub fb_width : ℕ
fb_width = 64

abbrev pub fb_height : ℕ
fb_height = 64

abbrev pub fb_bytes_per_line : ℕ
fb_bytes_per_line = 8

abbrev pub fb_len : ℕ
fb_len = 512

pub record External : Type 0 where
  pub buf : Bytes
  pub enabled : Bool

unfoldable pub new : External
unfolding replicate
new = record { buf = replicate fb_len 0; enabled = false }

unfoldable pub set_enabled : Bool → External → External
set_enabled on e = record { buf = e.buf; enabled = on }

-- The picture afterwards, and whether the line was stored.
unfoldable pub write_line : ℕ → Bytes → External → External × Bool
write_line line bytes e =
    if leb fb_height line || ltb (length bytes) fb_bytes_per_line then (e, false) else (
      record {
        buf = write_at (line * fb_bytes_per_line) (take fb_bytes_per_line bytes) e.buf;
        enabled = e.enabled;
      },
      true,
    )

-- `0x80 >> (x % 8)`.
unfoldable pub mask : ℕ → ℕ
mask x = 0x80 / 2 ^ (x % 8)

unfoldable pub pixel : External → (x y : ℕ) → Bool
unfolding mask
pixel e x y =
    if leb fb_width x || leb fb_height y
    then false
    else not (bit_and (get_or e.buf (y * fb_bytes_per_line + x / 8) 0) (mask x) == 0)
