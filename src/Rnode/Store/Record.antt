-- ===== src/Rnode/Store/Record.antt =====
-- core/src/rnode/store.rs: all that the board keeps over a power cycle, and its record in flash.
use oxinode.Prelude.{
  ℕ, zero, suc, ◌+◌, ◌*◌, min, Bool, true, false, not, List, [], ◌∷◌, Option, none, some, Bytes,
  length, take, get_or, replicate, write_at, if◌then◌else◌, ltb, ◌==◌, bit_and, bit_or,
}
use oxinode.Prelude.Fields.{slice}
use oxinode.Prelude.Finds.{same}
use oxinode.Hash.{le_bytes, le_word}
use oxinode.Rnode.Eeprom
use oxinode.Rnode.Eeprom.{Eeprom}
use oxinode.Rnode.Store.{Bond, Slots, max_bonds}
use oxinode.Rnode.Store.Codec.{bond_len, encode_bond, decode_bond}
use oxinode.Rnode.Store.Crc.{record_crc}

abbrev pub magic : Bytes
magic = 0x4F ∷ 0x58 ∷ 0x4E ∷ 0x31 ∷ []

abbrev pub version : ℕ
version = 2

abbrev pub version_1 : ℕ
version_1 = 1

abbrev pub record_len_v1 : ℕ
record_len_v1 = 364

abbrev pub record_len : ℕ
record_len = 528

abbrev pub off_bonds : ℕ
off_bonds = 364

pub record DeviceStore : Type 0 where
  pub rom : Eeprom
  pub device_signature : Option Bytes
  pub target_firmware_hash : Option Bytes
  pub bonds : Slots
  pub alert : Bool

unfoldable pub new : DeviceStore
unfolding Eeprom.new replicate
new = record {
  rom = Eeprom.new;
  device_signature = none;
  target_firmware_hash = none;
  bonds = replicate max_bonds none;
  alert = true;
}

unfoldable pub wipe : DeviceStore → DeviceStore
unfolding new
wipe store = new

-- `bonds`: the slots that hold one, in order.
unfoldable pub bonds_in : Slots → List Bond
bonds_in [] = []
bonds_in (none ∷ slots) = bonds_in slots
bonds_in (some b ∷ slots) = b ∷ bonds_in slots

-- `flags |= flag`, if there is such a field.
abbrev pub flag_some : ℕ → Option Bytes → ℕ → ℕ
flag_some flag none flags = flags
flag_some flag (some bytes) flags = bit_or flags flag

unfoldable pub store_flags : DeviceStore → ℕ
store_flags store =
    let flags = flag_some 2 store.target_firmware_hash (flag_some 1 store.device_signature 0) in
    if not store.alert then bit_or flags 4 else flags

abbrev pub write_some : ℕ → Option Bytes → Bytes → Bytes
write_some at none out = out
write_some at (some bytes) out = write_at at bytes out

-- The loop over the bonds, the first of which is the `n`th.
unfoldable pub write_bonds : ℕ → List Bond → Bytes → Bytes
unfolding encode_bond
write_bonds n [] out = out
write_bonds n (b ∷ bonds) out =
    let at : ℕ = off_bonds + 1 + n * bond_len in
    write_bonds (n + 1) bonds (write_at at (encode_bond b (slice at bond_len out)) out)

-- The fields before the bonds.
unfoldable pub write_front : DeviceStore → Bytes → Bytes
unfolding store_flags
write_front store out =
    let named = write_at 4 (version ∷ []) (write_at 0 magic out) in
    let signed = write_some 268 store.device_signature named in
    let hashed = write_some 332 store.target_firmware_hash signed in
    write_at 12 store.rom.bytes (write_at 5 (store_flags store ∷ []) hashed)

unfoldable pub encode : DeviceStore → Bytes
unfolding write_front write_bonds bonds_in record_crc le_bytes replicate
encode store =
    let bonds = bonds_in store.bonds in
    let bonded = write_bonds 0 bonds (write_front store (replicate record_len 0)) in
    let counted = write_at off_bonds (length bonds ∷ []) bonded in
    write_at 8 (le_bytes 4 (record_crc counted)) counted

-- The bonds of the slots from `n` on.
unfoldable pub read_bonds : (count n : ℕ) → Bytes → List Bond
unfolding decode_bond
read_bonds zero n bytes = []
read_bonds (suc count) n bytes =
    decode_bond (slice (off_bonds + 1 + n * bond_len) bond_len bytes)
    ∷ read_bonds count (n + 1) bytes

-- Bonds from the front, and empty slots behind them.
unfoldable pub slots_of : ℕ → List Bond → Slots
slots_of zero bonds = []
slots_of (suc n) [] = none ∷ slots_of n []
slots_of (suc n) (b ∷ bonds) = some b ∷ slots_of n bonds

-- A store of what its record holds.
abbrev pub store_of : ℕ → Bytes → Bytes → Bytes → List Bond → DeviceStore
unfolding slots_of
store_of flags rom signature hash bonds = record {
  rom = record { bytes = rom };
  device_signature = if not (bit_and flags 1 == 0) then some signature else none;
  target_firmware_hash = if not (bit_and flags 2 == 0) then some hash else none;
  bonds = slots_of max_bonds bonds;
  alert = bit_and flags 4 == 0;
}

-- The part of `decode` behind the choice of the length that the version stands for.
unfoldable pub decode_len : (len : ℕ) (has_bonds : Bool) → Bytes → Option DeviceStore
unfolding record_crc le_word read_bonds
decode_len len has_bonds bytes =
    if not (same (slice 0 4 bytes) magic)
    then none
    else if not (record_crc (take len bytes) == le_word bytes 8)
    then none
    else some (
        store_of (get_or bytes 5 0) (slice 12 256 bytes) (slice 268 64 bytes) (slice 332 32 bytes)
          (if has_bonds then read_bonds (min (get_or bytes off_bonds 0) max_bonds) 0 bytes else []))

unfoldable pub decode : Bytes → Option DeviceStore
unfolding decode_len
decode bytes =
    if ltb (length bytes) record_len
    then none
    else if get_or bytes 4 0 == version
    then decode_len record_len true bytes
    else if get_or bytes 4 0 == version_1
    then decode_len record_len_v1 false bytes
    else none
