-- ===== src/Prelude/Bits.antt =====
-- A test of every number of a short range, by evaluation: the bit operations are native, and the
-- tactics do not know them.
use Prim.Native.Nat.{ℕ, zero, suc, ◌+◌, ◌<◌}
use mathlib.Core.Path.{◌≡◌, ap, ◌∙◌}
use mathlib.Core.Bool.{Bool, true, ◌&&◌}
use native.Mathlib.Omega.{arith}

-- Whether a test holds for `count` numbers from `start` on.
unfoldable pub holds_from : (test : ℕ → Bool) (start count : ℕ) → Bool
holds_from test start zero = true
holds_from test start (suc count) = test start && holds_from test (start + 1) count

in_window :
    (test : ℕ → Bool) (start count d : ℕ)
    → holds_from test start count ≡ true
    → d < count
    → test (start + d) ≡ true
unfolding holds_from
in_window test start zero d every h = absurd (omega arith)
in_window test start (suc count) zero every h = ground arith
in_window test start (suc count) (suc d) every h =
    ground (arith, in_window test (start + 1) count d)

pub holds_from-at :
    (test : ℕ → Bool) (count n : ℕ) → n < count → holds_from test 0 count ≡ true → test n ≡ true
holds_from-at test count n h every = ap test (omega arith) ∙ in_window test 0 count n every h
