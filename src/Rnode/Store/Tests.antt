-- ===== src/Rnode/Store/Tests.antt =====
-- Bonds at concrete inputs.
use oxinode.Prelude.{true, replicate, [], ◌∷◌, none, some, false, ◌≡◌, refl, ℕ}
use oxinode.Prelude.Finds.{change_first, find, same}
use oxinode.Rnode.Store.{Bond, Slots, add_bond}
use oxinode.Rnode.Eeprom
use oxinode.Rnode.Store.Record.{DeviceStore, bonds_in, encode, decode}
use oxinode.Rnode.Store.BondTable.{AreBonds}
use oxinode.Rnode.Store.RecordFields.{IsStore, packed}
use oxinode.Rnode.Store.Restore.{decode-encode}
use oxinode.Rnode.Store.Bonds.{Remembers, add_bond-Remembers}

abbrev phone : ℕ → Bond
phone a = record { addr_kind = 1; addr = a ∷ []; irk = none; ltk = []; authenticated = false }

abbrev four : Slots
four = some (phone 1) ∷ some (phone 2) ∷ some (phone 3) ∷ some (phone 4) ∷ []

add_bond-full :
    add_bond (phone 5) four ≡ some (phone 2) ∷ some (phone 3) ∷ some (phone 4) ∷ some (phone 5) ∷ []
unfolding add_bond find same
add_bond-full = refl

add_bond-Remembers_example : Remembers (phone 5) four (add_bond (phone 5) four)
add_bond-Remembers_example = add_bond-Remembers (phone 5) four refl

-- The first phone that pairs.
add_bond-empty :
    add_bond (phone 5) (none ∷ none ∷ none ∷ none ∷ []) ≡ some (phone 5) ∷ none ∷ none ∷ none ∷ []
unfolding add_bond find same change_first
add_bond-empty = refl

abbrev keyed_phone : Bond
keyed_phone = record {
  addr_kind = 1;
  addr = 1 ∷ 2 ∷ 3 ∷ 4 ∷ 5 ∷ 6 ∷ [];
  irk = some (replicate 16 7);
  ltk = replicate 16 8;
  authenticated = true;
}

-- A signed device whose first slot is empty.
abbrev kept : DeviceStore
kept = record {
  rom = Eeprom.new;
  device_signature = some (replicate 64 9);
  target_firmware_hash = none;
  bonds = none ∷ some keyed_phone ∷ none ∷ none ∷ [];
  alert = false;
}

kept-IsStore : IsStore kept
unfolding Eeprom.new AreBonds bonds_in replicate
kept-IsStore = (refl, refl, tt, refl, ((refl, refl, refl), tt))

decode-encode_example : decode (encode kept) ≡ some (packed kept)
decode-encode_example = decode-encode kept kept-IsStore

-- A record whose magic is not there is refused.
erased_record : decode (replicate 528 0xFF) ≡ none
unfolding decode replicate
erased_record = refl
