-- ===== src/Rnode/Store.antt =====
-- core/src/rnode/store.rs: the phones that the board remembers.
pub mod Bonds
pub mod Codec
pub mod RoundTrip
pub mod Crc
pub mod Record
pub mod BondTable
pub mod RecordFields
pub mod Restore
mod Tests
use oxinode.Prelude.{
  ℕ, Bool, true, false, ◌&&◌, List, [], ◌∷◌, ◌++◌, Option, none, some, Bytes, drop, set, replicate,
  ◌==◌,
}
use oxinode.Prelude.Finds.{same, find, change_first}

abbrev pub max_bonds : ℕ
max_bonds = 4

pub record Bond : Type 0 where
  pub addr_kind : ℕ
  pub addr : Bytes
  pub irk : Option Bytes
  pub ltk : Bytes
  pub authenticated : Bool

-- The field `bonds` of `DeviceStore`: slots, the oldest bond first.
abbrev pub Slots : Type 0
Slots = List (Option Bond)

-- Whether a slot holds a bond for the address of another.
unfoldable pub is_for : Bond → Option Bond → Bool
is_for bond none = false
is_for bond (some b) = same b.addr bond.addr && b.addr_kind == bond.addr_kind

unfoldable pub is_free : Option Bond → Bool
is_free none = true
is_free (some b) = false

-- `copy_within(1.., 0)`, and the last slot filled.
unfoldable pub shift_in : Bond → Slots → Slots
shift_in bond slots = set (drop 1 slots ++ drop 3 slots) 3 (some bond)

unfoldable pub add_new : Bond → Slots → Slots
unfolding is_free shift_in
add_new bond slots = elim (find is_free slots) [
  | some slot ↦ change_first is_free (λ slot. some bond) slots
  | none ↦ shift_in bond slots
]

unfoldable pub add_bond : Bond → Slots → Slots
unfolding is_for add_new
add_bond bond slots = elim (find (is_for bond) slots) [
  | some slot ↦ change_first (is_for bond) (λ slot. some bond) slots
  | none ↦ add_new bond slots
]

unfoldable pub clear_bonds : Slots → Slots
clear_bonds slots = replicate max_bonds none
