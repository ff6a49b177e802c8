-- ===== src/Lr1121/Csma/Bounds.antt =====
-- The numbers that a wait is made of.
use oxinode.Prelude.{ℕ, ◌≤◌, ◌≡◌, refl, arith}
use oxinode.Lr1121.Config.{RadioConfig}
use oxinode.Lr1121.Csma.{slot_us, budget_us, draw, new, sync_timeout_symbols}

-- Whatever the configuration, the payload and the seed: a slot lasts 6 to 100 ms, the budget is 2
-- to 20 s, 2 to 17 clear senses are needed, and none has been heard; a receive that hears no header
-- ends within 255 symbols.
pub new-bounds :
    (config : RadioConfig) (len seed : ℕ)
    → let b = new config len seed in
      (6000 ≤ b.slot)
      × (b.slot ≤ 100000)
      × (2000000 ≤ b.budget)
      × (b.budget ≤ 20000000)
      × (2 ≤ b.need)
      × (b.need ≤ 17)
      × (b.clear_run ≡ 0)
      × (sync_timeout_symbols config ≤ 255)
unfolding new slot_us budget_us draw sync_timeout_symbols
new-bounds config len seed = (
  ground arith,
  ground arith,
  ground arith,
  ground arith,
  omega arith,
  omega arith,
  refl,
  ground arith,
)
