-- ===== src/Rnode/Store/Restore.antt =====
-- The store that is written to flash is the store that the next start finds.
use oxinode.Prelude.{
  ℕ, ◌+◌, ◌*◌, ◌≤◌, min, true, List, [], ◌∷◌, ◌++◌, Option, none, some, Bytes, length, take, drop,
  get_or, replicate, length-replicate, write_at, length-write_at, ◌≡◌, refl, ap, ◌∙◌, subst, arith,
}
use oxinode.Prelude.Fields.{slice, get_or-slice}
use oxinode.Prelude.Patches.{
  Patch, patch_all, AllFit, clear, length-patch_all, slice-patch_all, slice-patch_all_at,
}
use oxinode.Hash.{le_bytes, le_word}
use oxinode.Rnode.Store.{Bond, max_bonds}
use oxinode.Rnode.Store.Codec.{bond_len}
use oxinode.Rnode.Store.Crc.{record_crc}
use oxinode.Rnode.Store.Record.{
  DeviceStore, magic, version, record_len, off_bonds, bonds_in, store_flags, write_bonds, encode,
  read_bonds, store_of, decode,
}
use oxinode.Rnode.Store.BondTable.{
  length-write_bonds, slice-write_bonds, read_bonds-write_bonds, read_bonds-slices,
}
use oxinode.Rnode.Store.RecordFields.{
  IsStore, packed, length-bonds_in, Fits-some, front, write_front-patch_all, Reads,
  store_of-store_flags, crc_lem, decode_lem,
}

module _ (s : DeviceStore) (ok : IsStore s) where
  abbrev blank : Bytes
  blank = replicate record_len 0

  abbrev bonds : List Bond
  bonds = bonds_in s.bonds

  abbrev fronted : Bytes
  fronted = patch_all (front s) blank

  abbrev bonded : Bytes
  bonded = write_bonds 0 bonds fronted

  abbrev counted : Bytes
  counted = write_at off_bonds (length bonds ∷ []) bonded

  abbrev whole : Bytes
  whole = write_at 8 (le_bytes 4 (record_crc counted)) counted

  few : 0 + length bonds ≤ 4
  few = omega (arith, length-bonds_in s.bonds)

  front-AllFit : AllFit record_len (front s)
  unfolding AllFit
  front-AllFit = (
    (refl, omega arith),
    (
      (refl, omega arith),
      (
        Fits-some 268 64 record_len s.device_signature ok.1 (omega arith),
        (
          Fits-some 332 32 record_len s.target_firmware_hash ok.2 (omega arith),
          ((refl, omega arith), ((ok.0, omega arith), tt)),
        ),
      ),
    ),
  )

  length-fronted : length fronted ≡ record_len
  length-fronted =
      length-patch_all record_len (front s) blank (length-replicate record_len 0) front-AllFit

  length-bonded : length bonded ≡ record_len
  length-bonded = length-write_bonds 0 bonds fronted length-fronted few ok.4

  abbrev back : List Patch
  back =
      (off_bonds, 1, some (length bonds ∷ [])) ∷ (8, 4, some (le_bytes 4 (record_crc counted))) ∷ []

  back-AllFit : AllFit record_len back
  unfolding AllFit le_bytes
  back-AllFit = ((refl, omega arith), ((refl, omega arith), tt))

  whole-back : whole ≡ patch_all back bonded
  unfolding patch_all
  whole-back = refl

  length-whole : length whole ≡ record_len
  length-whole =
      ap length whole-back ∙ length-patch_all record_len back bonded length-bonded back-AllFit

  -- A field of the front that the back does not touch.
  whole-front :
      (i n : ℕ)
      → i + n ≤ off_bonds + 1
      → clear i n back ≡ true
      → slice i n whole ≡ slice i n fronted
  whole-front i n h c =
      ap (slice i n) whole-back
      ∙ slice-patch_all record_len i n back bonded length-bonded back-AllFit c
      ∙ slice-write_bonds 0 bonds fronted i n length-fronted few ok.4 h

  front_field :
      (k i n : ℕ) (ys : Bytes)
      → front s ≡ take k (front s) ++ ((i, n, some ys) ∷ drop (k + 1) (front s))
      → i + n ≤ off_bonds + 1
      → clear i n back ≡ true
      → clear i n (drop (k + 1) (front s)) ≡ true
      → slice i n whole ≡ ys
  front_field k i n ys e h c d =
      let after : List Patch = drop (k + 1) (front s) in
      whole-front i n h c
      ∙ ap (λ ps. slice i n (patch_all ps blank)) e
      ∙ slice-patch_all_at record_len i n ys (take k (front s)) after blank
          (length-replicate record_len 0) (subst (AllFit record_len) e front-AllFit) d

  magic_back : slice 0 4 whole ≡ magic
  unfolding clear
  magic_back = front_field 0 0 4 magic refl (omega arith) refl refl

  version_back : get_or whole 4 0 ≡ version
  unfolding clear
  version_back =
      get_or-slice whole 4 0
      ∙ ap (λ bytes. get_or bytes 0 0)
          (front_field 1 4 1 (version ∷ []) refl (omega arith) refl refl)

  flags_back : get_or whole 5 0 ≡ store_flags s
  unfolding clear
  flags_back =
      get_or-slice whole 5 0
      ∙ ap (λ bytes. get_or bytes 0 0)
          (front_field 4 5 1 (store_flags s ∷ []) refl (omega arith) refl refl)

  rom_back : slice 12 256 whole ≡ s.rom.bytes
  unfolding clear
  rom_back = front_field 5 12 256 s.rom.bytes refl (omega arith) refl refl

  signature_back : Reads s.device_signature (slice 268 64 whole)
  unfolding clear
  signature_back = go s.device_signature refl
    where
      go : (o : Option Bytes) → s.device_signature ≡ o → Reads o (slice 268 64 whole)
      go none e = tt
      go (some sig) e =
          front_field 2 268 64 sig
            (ap (λ o. take 2 (front s) ++ ((268, 64, o) ∷ drop 3 (front s))) e) (omega arith) refl
            refl

  hash_back : Reads s.target_firmware_hash (slice 332 32 whole)
  unfolding clear
  hash_back = go s.target_firmware_hash refl
    where
      go : (o : Option Bytes) → s.target_firmware_hash ≡ o → Reads o (slice 332 32 whole)
      go none e = tt
      go (some hash) e =
          front_field 3 332 32 hash
            (ap (λ o. take 3 (front s) ++ ((332, 32, o) ∷ drop 4 (front s))) e) (omega arith) refl
            refl

  count_back : get_or whole off_bonds 0 ≡ length bonds
  unfolding clear
  count_back =
      get_or-slice whole off_bonds 0
      ∙ ap (λ bytes. get_or bytes 0 0)
          (ap (slice off_bonds 1) whole-back
            ∙ slice-patch_all_at record_len off_bonds 1 (length bonds ∷ []) [] (drop 1 back) bonded
                length-bonded back-AllFit refl)

  bonds_back : read_bonds (min (get_or whole off_bonds 0) max_bonds) 0 whole ≡ bonds
  unfolding clear
  bonds_back =
      ap (λ count. read_bonds count 0 whole) {y = length bonds} (omega (arith, count_back, few))
      ∙ read_bonds-slices (length bonds) 0 whole bonded (λ k.
        ap (slice (off_bonds + 1 + k * bond_len) bond_len) whole-back
        ∙ slice-patch_all record_len (off_bonds + 1 + k * bond_len) bond_len back bonded
            length-bonded back-AllFit (ground arith))
      ∙ read_bonds-write_bonds 0 bonds fronted length-fronted few ok.4

  length-counted : length counted ≡ record_len
  length-counted =
      length-write_at off_bonds (length bonds ∷ []) bonded (omega (arith, length-bonded))
      ∙ length-bonded

  decoded : decode whole ≡ some (packed s)
  decoded =
      let crc : record_crc (take record_len whole) ≡ le_word whole 8 =
        crc_lem counted length-counted in
      let a : Bytes = slice 12 256 whole in
      let x : Bytes = slice 268 64 whole in
      let y : Bytes = slice 332 32 whole in
      let bs : List Bond = read_bonds (min (get_or whole off_bonds 0) max_bonds) 0 whole in
      decode_lem whole length-whole version_back magic_back crc
      ∙ ap some (
          ap (λ f. store_of f a x y bs) flags_back
          ∙ ap (λ rom. store_of (store_flags s) rom x y bs) rom_back
          ∙ ap (store_of (store_flags s) s.rom.bytes x y) bonds_back
          ∙ store_of-store_flags s.rom.bytes s.device_signature s.target_firmware_hash s.bonds
              s.alert x y bonds signature_back hash_back)

-- The record of a store is read back as the store with its bonds moved up to the front, in their order:
-- every other field returns, whatever the checksum, the flags and the number of bonds come to.
pub decode-encode : (s : DeviceStore) → IsStore s → decode (encode s) ≡ some (packed s)
unfolding encode
decode-encode s ok =
    ap
      (λ front. decode (
        let bonded = write_bonds 0 (bonds_in s.bonds) front in
        let counted = write_at off_bonds (length (bonds_in s.bonds) ∷ []) bonded in
        write_at 8 (le_bytes 4 (record_crc counted)) counted))
      (write_front-patch_all s (replicate record_len 0))
    ∙ decoded s ok
