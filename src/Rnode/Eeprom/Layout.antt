-- ===== src/Rnode/Eeprom/Layout.antt =====
-- The image as cells: what a run of writes leaves in each, and that the operations on the stored
-- configuration are such runs.
use oxinode.Prelude.{
  ℕ, ◌+◌, ◌/◌, ◌%◌, ◌≤◌, ◌<◌, Bool, true, ◌&&◌, List, [], ◌∷◌, ◌≡◌, ◌⊎◌, inl, inr, refl, ap, ◌∙◌,
  arith, length, get_or, set, length-set, get_or-set_self, get_or-set_ne, ltb, leb, ◌==◌,
  if◌then◌else◌, Bool-cases,
}
use oxinode.Prelude.Fields.{slice, slice-set_after}
use oxinode.Prelude.Int.{to_bits}
use oxinode.Hash.{be_bytes}
use oxinode.Lr1121.Config.{RadioConfig}
use oxinode.Rnode.Eeprom.{
  Eeprom, read, write, write_from, write_be32, save_config, delete_config, conf_ok_byte,
}
use oxinode.Rnode.Eeprom.Addr

-- An image has its 256 bytes.
abbrev pub IsImage : Eeprom → Type 0
IsImage e = length e.bytes ≡ 256

abbrev pub Cells : Type 0
Cells = List (ℕ × ℕ)

-- The cells are written from the first on.
unfoldable pub write_all : Cells → Eeprom → Eeprom
write_all [] e = e
write_all ((addr, value) ∷ cells) e = write_all cells (write addr value e)

-- What an address holds afterwards, if it held `before`.
unfoldable pub held : Cells → ℕ → ℕ → ℕ
held [] addr before = before
held ((a, v) ∷ cells) addr before = held cells addr (if a == addr then v else before)

-- Whether every cell lies from `low` up to `high`, which it does not reach.
unfoldable pub within : ℕ → ℕ → Cells → Bool
within low high [] = true
within low high ((a, v) ∷ cells) = leb low a && ltb a high && within low high cells

pub write-IsImage : (addr value : ℕ) (e : Eeprom) → IsImage e → IsImage (write addr value e)
unfolding write
write-IsImage addr value e h = length-set e.bytes addr value ∙ h

pub read-write :
    (a v b : ℕ) (e : Eeprom)
    → IsImage e
    → a < 256
    → read b (write a v e) ≡ (if a == b then v else read b e)
unfolding read write
read-write a v b e h k = elim (Bool-cases (a == b)) [
  | inl same ↦ rw same (
      ap (λ i. get_or (set e.bytes a v) i 0) (ground arith)
      ∙ get_or-set_self e.bytes a v 0 (omega arith))
  | inr other ↦ rw other (get_or-set_ne e.bytes v 0 (λ eq. ground arith))
]

pub read-write_all :
    (cells : Cells) (e : Eeprom) (addr : ℕ)
    → IsImage e
    → within 0 256 cells ≡ true
    → read addr (write_all cells e) ≡ held cells addr (read addr e)
unfolding write_all held within
read-write_all [] e addr h k = refl
read-write_all ((a, v) ∷ cells) e addr h k =
    read-write_all cells (write a v e) addr (write-IsImage a v e h) (ground arith)
    ∙ ap (held cells addr) (read-write a v addr e h (ground arith))

pub held-other :
    (cells : Cells) (low high addr before : ℕ)
    → within low high cells ≡ true
    → (addr < low) ⊎ (high ≤ addr)
    → held cells addr before ≡ before
unfolding held within
held-other [] low high addr before h k = refl
held-other ((a, v) ∷ cells) low high addr before h k =
    ap (held cells addr) {x = if a == addr then v else before} (ground arith)
    ∙ held-other cells low high addr before (ground arith) k

pub slice-write_all :
    (cells : Cells) (e : Eeprom) (low high i n : ℕ)
    → within low high cells ≡ true
    → i + n ≤ low
    → slice i n (write_all cells e).bytes ≡ slice i n e.bytes
unfolding write_all write within
slice-write_all [] e low high i n h k = refl
slice-write_all ((a, v) ∷ cells) e low high i n h k =
    slice-write_all cells (write a v e) low high i n (ground arith) k
    ∙ slice-set_after i n a v e.bytes (ground arith)

-- The cells that `save_config` writes.
abbrev pub saved_cells : RadioConfig → Cells
saved_cells c =
    (Addr.conf_sf, c.spreading_factor)
    ∷ (Addr.conf_cr, c.coding_rate)
    ∷ (Addr.conf_txp, to_bits 8 c.tx_power_dbm)
    ∷ (Addr.conf_bw, c.bandwidth_hz / 256 / 256 / 256 % 256)
    ∷ (0xA0, c.bandwidth_hz / 256 / 256 % 256)
    ∷ (0xA1, c.bandwidth_hz / 256 % 256)
    ∷ (0xA2, c.bandwidth_hz % 256)
    ∷ (Addr.conf_freq, c.frequency_hz / 256 / 256 / 256 % 256)
    ∷ (0xA4, c.frequency_hz / 256 / 256 % 256)
    ∷ (0xA5, c.frequency_hz / 256 % 256)
    ∷ (0xA6, c.frequency_hz % 256)
    ∷ (Addr.conf_ok, conf_ok_byte)
    ∷ []

pub save_config-write_all :
    (c : RadioConfig) (e : Eeprom) → save_config c e ≡ write_all (saved_cells c) e
unfolding save_config write_be32 write_from be_bytes write_all
save_config-write_all c e = refl

pub saved_cells-within : (c : RadioConfig) → within 0x9C 0xA8 (saved_cells c) ≡ true
unfolding within
saved_cells-within c = refl

pub saved_cells-within_image : (c : RadioConfig) → within 0 256 (saved_cells c) ≡ true
unfolding within
saved_cells-within_image c = refl

abbrev pub deleted_cells : Cells
deleted_cells = (Addr.conf_ok, 0xFF) ∷ []

pub delete_config-write_all : (e : Eeprom) → delete_config e ≡ write_all deleted_cells e
unfolding delete_config write_all
delete_config-write_all e = refl

pub write_all-IsImage : (cells : Cells) (e : Eeprom) → IsImage e → IsImage (write_all cells e)
unfolding write_all
write_all-IsImage [] e h = h
write_all-IsImage ((a, v) ∷ cells) e h =
    write_all-IsImage cells (write a v e) (write-IsImage a v e h)
