-- ===== src/Battery/Percent.antt =====
-- The estimate is a percentage, and it never falls as the voltage rises.
use oxinode.Prelude.{ℕ, zero, suc, ◌+◌, ◌-◌, ◌≤◌, Bool, true, ◌&&◌, leb, ◌≡◌, refl, ap, arith}
use native.Mathlib.Decide.{dec_le}
use oxinode.Prelude.Bits.{holds_from, holds_from-at}
use oxinode.Battery.{percent}

-- One step of the voltage.
abbrev rises : ℕ → Bool
rises mv = leb (percent mv) (percent (mv + 1)) && leb (percent mv) 100

all_rise : holds_from rises 0 4050 ≡ true
unfolding holds_from percent
all_rise = refl

percent-full : (mv : ℕ) → 4050 ≤ mv → percent mv ≡ 100
unfolding percent
percent-full mv h = ground arith

percent-step : (mv : ℕ) → (percent mv ≤ percent (mv + 1)) × (percent mv ≤ 100)
percent-step mv = elim (dec_le 4050 mv) [
  | yes high ↦
      (omega (arith, percent-full mv, percent-full (mv + 1)), omega (arith, percent-full mv))
  | no low ↦
      let one : rises mv ≡ true = holds_from-at rises 4050 mv (omega arith) all_rise in
      (ground arith, ground arith)
]

percent-more : (mv d : ℕ) → percent mv ≤ percent (mv + d)
percent-more mv zero = omega (arith, ap percent {x = mv} {y = mv + 0} (omega arith))
percent-more mv (suc d) =
    let next = ap percent {x = mv + d + 1} {y = mv + suc d} (omega arith) in
    omega (arith, percent-more mv d, (percent-step (mv + d)).0, next)

-- The estimate is at most 100, and of two voltages the higher has no lower an estimate.
pub percent_mono : (low high : ℕ) → low ≤ high → (percent low ≤ percent high) × (percent high ≤ 100)
percent_mono low high h =
    let same = ap percent {x = low + (high - low)} {y = high} (omega arith) in
    (omega (arith, percent-more low (high - low), same), (percent-step high).1)
