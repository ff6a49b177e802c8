-- ===== src/W25q/Tests.antt =====
-- The chip of the schematic, and small sectors.
use oxinode.Prelude.{ℕ, List, [], ◌∷◌, none, some, ◌≡◌, refl}
use oxinode.Prelude.Finds.{same}
use oxinode.Hash.{le_bytes, le_word}
use oxinode.W25q.{
  verdict, capacity_bytes, w25q128, other, silent, fill, generated, step, check, is_erased, compare,
  pattern_of, foreign, erased,
}

verdict_schematic :
    verdict (record { manufacturer = 0xEF; memory_type = 0x40; capacity_code = 0x18 }) ≡ w25q128
unfolding verdict capacity_bytes
verdict_schematic = refl

verdict_smaller :
    verdict (record { manufacturer = 0xEF; memory_type = 0x40; capacity_code = 0x16 }) ≡ other
unfolding verdict capacity_bytes
verdict_smaller = refl

verdict_undriven :
    verdict (record { manufacturer = 0xFF; memory_type = 0xFF; capacity_code = 0xFF }) ≡ silent
unfolding verdict
verdict_undriven = refl

abbrev blank : List ℕ
blank = 0 ∷ 0 ∷ 0 ∷ 0 ∷ 0 ∷ 0 ∷ 0 ∷ 0 ∷ 0 ∷ 0 ∷ 0 ∷ 0 ∷ 0 ∷ 0 ∷ []

foreign_sector : check blank ≡ foreign
unfolding check is_erased same
foreign_sector = refl

erased_sector : check (255 ∷ 255 ∷ []) ≡ erased
unfolding check is_erased
erased_sector = refl

filled : check (fill blank 7) ≡ pattern_of 7 0 none
unfolding check is_erased same le_word compare fill generated step le_bytes
filled = refl

-- The header of seed 7 and two bytes that are not its own.
wrong_bytes :
    check (111 ∷ 120 ∷ 105 ∷ 110 ∷ 111 ∷ 100 ∷ 101 ∷ 49 ∷ 7 ∷ 0 ∷ 0 ∷ 0 ∷ 1 ∷ 1 ∷ [])
    ≡ pattern_of 7 2 (some 12)
unfolding check is_erased same le_word compare step
wrong_bytes = refl
