-- ===== src/Rnode/Store/RecordFields.antt =====
-- The fields of a record: what the front holds, and what is decoded if every field is in place.
use oxinode.Prelude.{
  ℕ, ◌+◌, ◌^◌, ◌≤◌, ◌<◌, min, Bool, true, false, not, List, [], ◌∷◌, Option, none, some, Bytes,
  length, take, drop, get_or, write_at, length-write_at, take-all, length-drop, if◌then◌else◌, ltb,
  ◌==◌, ◌≡◌, refl, ap, ap₂, sym, ◌∙◌, arith,
}
use oxinode.Prelude.Fields.{slice, slice-write_at_before, slice-write_at_after, slice-write_at_self}
use oxinode.Prelude.Finds.{same, same_self}
use oxinode.Prelude.Reads.{get_or-take, get_or-drop}
use oxinode.Prelude.Patches.{Patch, patch, patch_all, Fits}
use oxinode.Hash.{le_bytes, le_word}
use oxinode.Rnode.Store.{Bond, Slots, max_bonds}
use oxinode.Rnode.Store.Crc.{record_crc, record_crc-bound, record_crc-parts}
use oxinode.Rnode.Store.Record.{
  DeviceStore, magic, version, version_1, record_len, record_len_v1, off_bonds, bonds_in,
  store_flags, write_some, write_front, read_bonds, slots_of, store_of, decode_len, decode,
}
use oxinode.Rnode.Store.BondTable.{AreBonds}

-- An array of a given length, if there is one.
abbrev pub IsArray : ℕ → Option Bytes → Type 0
IsArray n none = Unit
IsArray n (some bytes) = length bytes ≡ n

-- A store whose arrays have the lengths that their types say.
abbrev pub IsStore : DeviceStore → Type 0
IsStore s =
    (length s.rom.bytes ≡ 256)
    × IsArray 64 s.device_signature
    × IsArray 32 s.target_firmware_hash
    × (length s.bonds ≡ 4)
    × AreBonds (bonds_in s.bonds)

-- The same store, its bonds moved up to the front.
abbrev pub packed : DeviceStore → DeviceStore
packed s = record {
  rom = s.rom;
  device_signature = s.device_signature;
  target_firmware_hash = s.target_firmware_hash;
  bonds = slots_of max_bonds (bonds_in s.bonds);
  alert = s.alert;
}

pub length-bonds_in : (slots : Slots) → length (bonds_in slots) ≤ length slots
unfolding bonds_in
length-bonds_in [] = omega arith
length-bonds_in (none ∷ slots) = omega (arith, length-bonds_in slots)
length-bonds_in (some b ∷ slots) = omega (arith, length-bonds_in slots)

pub Fits-some :
    (at n size : ℕ) (o : Option Bytes) → IsArray n o → at + n ≤ size → Fits size (at, n, o)
Fits-some at n size none h k = tt
Fits-some at n size (some bytes) h k = (h, k)

pub write_some-patch :
    (at n : ℕ) (o : Option Bytes) (out : Bytes) → write_some at o out ≡ patch (at, n, o) out
write_some-patch at n none out = refl
write_some-patch at n (some bytes) out = refl

abbrev pub front : DeviceStore → List Patch
front s =
    (0, 4, some magic)
    ∷ (4, 1, some (version ∷ []))
    ∷ (268, 64, s.device_signature)
    ∷ (332, 32, s.target_firmware_hash)
    ∷ (5, 1, some (store_flags s ∷ []))
    ∷ (12, 256, some s.rom.bytes)
    ∷ []

pub write_front-patch_all :
    (s : DeviceStore) (out : Bytes) → write_front s out ≡ patch_all (front s) out
unfolding write_front patch_all
write_front-patch_all s out =
    let named : Bytes = write_at 4 (version ∷ []) (write_at 0 magic out) in
    let finish : Bytes → Bytes =
      λ hashed. write_at 12 s.rom.bytes (write_at 5 (store_flags s ∷ []) hashed) in
    ap (λ signed. finish (write_some 332 s.target_firmware_hash signed))
      (write_some-patch 268 64 s.device_signature named)
    ∙ ap finish
        (write_some-patch 332 32 s.target_firmware_hash (patch (268, 64, s.device_signature) named))

-- The slice that an array is read from, if there is one.
abbrev pub Reads : Option Bytes → Bytes → Type 0
Reads none bytes = Unit
Reads (some wanted) bytes = bytes ≡ wanted

pub store_of-store_flags :
    (rom : Bytes) (sig hash : Option Bytes) (slots : Slots) (alert : Bool) (x y : Bytes)
    (bonds : List Bond)
    → Reads sig x
    → Reads hash y
    → let s : DeviceStore = record {
      rom = record { bytes = rom };
      device_signature = sig;
      target_firmware_hash = hash;
      bonds = slots;
      alert = alert;
    } in
      store_of (store_flags s) rom x y bonds ≡ record {
        rom = record { bytes = rom };
        device_signature = sig;
        target_firmware_hash = hash;
        bonds = slots_of max_bonds bonds;
        alert = alert;
      }
unfolding store_flags slots_of
store_of-store_flags rom none none slots true x y bonds r q = refl
store_of-store_flags rom none none slots false x y bonds r q = refl
store_of-store_flags rom none (some h) slots true x y bonds r q = rw q refl
store_of-store_flags rom none (some h) slots false x y bonds r q = rw q refl
store_of-store_flags rom (some g) none slots true x y bonds r q = rw r refl
store_of-store_flags rom (some g) none slots false x y bonds r q = rw r refl
store_of-store_flags rom (some g) (some h) slots true x y bonds r q = rw (r, q) refl
store_of-store_flags rom (some g) (some h) slots false x y bonds r q = rw (r, q) refl

pub le_word-le_bytes :
    (n : ℕ) (bytes : Bytes) (i : ℕ)
    → n < 2 ^ 32
    → slice i 4 bytes ≡ le_bytes 4 n
    → le_word bytes i ≡ n
unfolding le_word le_bytes
le_word-le_bytes n bytes i h e =
    let at : (k : ℕ) → k < 4 → get_or bytes (i + k) 0 ≡ get_or (slice i 4 bytes) k 0 =
      λ k small. sym (get_or-take (drop i bytes) 4 k 0 small ∙ get_or-drop bytes i k 0) in
    let b0 =
      ap (λ j. get_or bytes j 0) {x = i} (omega arith)
      ∙ at 0 (omega arith)
      ∙ ap (λ s. get_or s 0 0) e in
    let b1 = at 1 (omega arith) ∙ ap (λ s. get_or s 1 0) e in
    let b2 = at 2 (omega arith) ∙ ap (λ s. get_or s 2 0) e in
    let b3 = at 3 (omega arith) ∙ ap (λ s. get_or s 3 0) e in omega (arith, b0, b1, b2, b3)

-- The checksum of a record is the one that stands in it.
pub crc_lem :
    (bytes : Bytes)
    → length bytes ≡ record_len
    → let whole : Bytes = write_at 8 (le_bytes 4 (record_crc bytes)) bytes in
      record_crc (take record_len whole) ≡ le_word whole 8
unfolding le_bytes
crc_lem bytes size =
    let crc : Bytes = le_bytes 4 (record_crc bytes) in
    let whole : Bytes = write_at 8 crc bytes in
    let long : length whole ≡ record_len = length-write_at 8 crc bytes (omega arith) ∙ size in
    let front = slice-write_at_before 0 8 8 crc bytes (omega arith) (omega arith) in
    let rest : drop 12 whole ≡ drop 12 bytes =
      sym (take-all (drop 12 whole) 516 (omega (arith, long, length-drop 12 whole)))
      ∙ slice-write_at_after 12 516 8 crc bytes (omega arith) (omega arith)
      ∙ take-all (drop 12 bytes) 516 (omega (arith, length-drop 12 bytes)) in
    ap record_crc (take-all whole record_len (omega (arith, long)))
    ∙ record_crc-parts whole bytes front rest
    ∙ sym (
        le_word-le_bytes (record_crc bytes) whole 8 (record_crc-bound bytes)
          (slice-write_at_self 8 4 crc bytes refl (omega arith)))

pub ==_self : (n : ℕ) → (n == n) ≡ true
==_self n = ground arith

pub decode_lem :
    (bytes : Bytes)
    → length bytes ≡ record_len
    → get_or bytes 4 0 ≡ version
    → slice 0 4 bytes ≡ magic
    → record_crc (take record_len bytes) ≡ le_word bytes 8
    → decode bytes
      ≡ some (
          store_of
            (get_or bytes 5 0)
            (slice 12 256 bytes)
            (slice 268 64 bytes)
            (slice 332 32 bytes)
            (read_bonds (min (get_or bytes off_bonds 0) max_bonds) 0 bytes))
unfolding decode decode_len
decode_lem bytes size v m crc =
    let old : Option DeviceStore =
      if get_or bytes 4 0 == version_1 then decode_len record_len_v1 false bytes else none in
    let found : DeviceStore =
      store_of (get_or bytes 5 0) (slice 12 256 bytes) (slice 268 64 bytes) (slice 332 32 bytes)
        (read_bonds (min (get_or bytes off_bonds 0) max_bonds) 0 bytes) in
    let long : ltb (length bytes) record_len ≡ false = rw size refl in
    let current : (get_or bytes 4 0 == version) ≡ true = rw v refl in
    let named : same (slice 0 4 bytes) magic ≡ true = rw m (same_self magic) in
    let summed : (record_crc (take record_len bytes) == le_word bytes 8) ≡ true =
      rw crc (==_self _) in
    ap₂ (λ short now. if short then none else if now then decode_len record_len true bytes else old)
      long current
    ∙ ap₂ (λ name sum. if not name then none else if not sum then none else some found) named summed
