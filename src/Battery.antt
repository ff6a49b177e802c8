-- ===== src/Battery.antt =====
-- core/src/battery.rs: the charge of the cell, from the count of the converter, and what is shown of it.
pub mod Percent
pub mod Shown
mod Tests
use oxinode.Prelude.{
  ℕ, ◌+◌, ◌-◌, ◌*◌, ◌/◌, ◌%◌, ◌^◌, Bool, true, false, List, [], ◌∷◌, Option, none, some,
  if◌then◌else◌, ltb, leb,
}
use oxinode.Prelude.Int.{ℤ, pos, negsuc, ◌+ℤ◌, ◌-ℤ◌, tdiv, to_bits}

abbrev pub full_scale_mv : ℕ
full_scale_mv = 3600

abbrev pub full_scale_counts : ℕ
full_scale_counts = 4096

abbrev pub divider_top_ohms : ℕ
divider_top_ohms = 806000

abbrev pub divider_bottom_ohms : ℕ
divider_bottom_ohms = 1500000

abbrev pub no_cell_below_mv : ℕ
no_cell_below_mv = 2500

abbrev pub ocv_mv : List ℕ
ocv_mv = 4050 ∷ 4010 ∷ 3990 ∷ 3930 ∷ 3870 ∷ 3820 ∷ 3740 ∷ 3630 ∷ 3550 ∷ 3450 ∷ 3100 ∷ []

pub record Reading : Type 0 where
  pub millivolts : ℕ
  pub percentage : ℕ

unfoldable pub pin_millivolts : ℤ → ℕ
pin_millivolts (pos count) = count * full_scale_mv / full_scale_counts
pin_millivolts (negsuc count) = 0

unfoldable pub cell_millivolts : ℤ → ℕ
unfolding pin_millivolts
cell_millivolts count =
    pin_millivolts count * (divider_top_ohms + divider_bottom_ohms) / divider_bottom_ohms % 2 ^ 32

-- The loop over the windows of the table, from the `i`th on. In each, `mv` is at `low` or above and
-- the differences are those of the signed numbers.
unfoldable pub percent_from : ℕ → List ℕ → ℕ → ℕ
percent_from i (high ∷ low ∷ rest) mv =
    let below = percent_from (i + 1) (low ∷ rest) mv in
    if leb low mv
    then 100 - 10 * i - 10 + ((mv - low) * 10 + (high - low) / 2) / (high - low)
    else below
percent_from i _ mv = 0

unfoldable pub percent : ℕ → ℕ
unfolding percent_from
percent mv = if leb 4050 mv then 100 else percent_from 0 ocv_mv mv

unfoldable pub reading : ℤ → Option Reading
unfolding cell_millivolts percent
reading count =
    let mv = cell_millivolts count in
    if ltb mv no_cell_below_mv
    then none
    else some (record { millivolts = mv; percentage = percent mv })

abbrev pub dead_band_mv : ℕ
dead_band_mv = 10

pub record Smoothed : Type 0 where
  pub average : Option ℤ
  pub shown : Option Reading

unfoldable pub new : Smoothed
new = record { average = none; shown = none }

unfoldable pub next_average : Option ℤ → ℤ → ℤ
next_average none target = target
next_average (some avg) target = avg +ℤ tdiv (target -ℤ avg) 4

-- `abs_diff`.
abbrev pub abs_diff : ℕ → ℕ → ℕ
abs_diff a b = a - b + (b - a)

abbrev pub has_moved : Option Reading → ℕ → Bool
has_moved none mv = true
has_moved (some shown) mv = leb dead_band_mv (abs_diff shown.millivolts mv)

-- The average in millivolts, as a `u32`.
unfoldable pub in_millivolts : ℤ → ℕ
in_millivolts average = to_bits 32 (tdiv average 16)

unfoldable pub show : Option Reading → ℕ → Option Reading
unfolding percent
show shown mv =
    if has_moved shown mv then some (record { millivolts = mv; percentage = percent mv }) else shown

unfoldable pub update : Option Reading → Smoothed → Smoothed
unfolding new next_average in_millivolts show
update none s = new
update (some fresh) s =
    let average = next_average s.average (pos (fresh.millivolts * 16)) in
    record { average = some average; shown = show s.shown (in_millivolts average) }

pub data Charger : Type 0 where
  unplugged charging full fault latched_off : Charger

unfoldable pub decode : (stat1_low stat2_low input : Bool) → Charger
decode stat1_low stat2_low false = unplugged
decode false false true = full
decode false true true = charging
decode true false true = fault
decode true true true = latched_off
