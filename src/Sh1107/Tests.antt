-- ===== src/Sh1107/Tests.antt =====
-- A pixel of an empty frame.
use oxinode.Prelude.{true, false, ◌≡◌, refl}
use oxinode.Sh1107.{Frame, new, set_pixel, pixel, is_dirty, fill, rect}

abbrev sent_frame : Frame
sent_frame = record new { dirty = 0 }

only_its_page : is_dirty 2 (set_pixel 5 17 true sent_frame) ≡ true
unfolding is_dirty set_pixel new
only_its_page = refl

no_other_page : is_dirty 3 (set_pixel 5 17 true sent_frame) ≡ false
unfolding is_dirty set_pixel new
no_other_page = refl

filled : pixel 127 127 (fill true sent_frame) ≡ true
unfolding pixel fill
filled = refl

boxed : pixel 11 6 (rect 10 5 3 2 true sent_frame) ≡ true
unfolding pixel rect new
boxed = refl
