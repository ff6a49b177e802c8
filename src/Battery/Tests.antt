-- ===== src/Battery/Tests.antt =====
-- The charge at a few counts.
use oxinode.Prelude.{ℕ, ◌≤◌, none, true, false, ◌≡◌, refl, arith}
use oxinode.Prelude.Int.{pos, negsuc}
use oxinode.Battery.{Reading, cell_millivolts, percent, reading, decode, unplugged}
use oxinode.Battery.Percent.{percent_mono}

no_cell : reading (negsuc 4) ≡ none
unfolding reading
no_cell = refl

full_cell : percent (cell_millivolts (pos 3000)) ≡ 100
unfolding percent cell_millivolts
full_cell = refl

on_its_cell : decode true true false ≡ unplugged
unfolding decode
on_its_cell = refl

percent_mono_example : (percent 3700 ≤ percent 3800) × (percent 3800 ≤ 100)
percent_mono_example = percent_mono 3700 3800 (omega arith)

abbrev sample : ℕ → Reading
sample mv = record { millivolts = mv; percentage = 0 }
