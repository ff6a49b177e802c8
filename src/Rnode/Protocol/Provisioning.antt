-- ===== src/Rnode/Protocol/Provisioning.antt =====
-- A host that provisions the device a byte at a time, and what the device then says of itself.
use oxinode.Prelude.{
  ℕ, ◌+◌, ◌≤◌, true, false, List, [], ◌∷◌, ◌++◌, Bytes, length, get_or, set, length-set, write_at,
  write_at-nil, write_at-cons, length-write_at, ◌≡◌, refl, ap, ap₂, sym, ◌∙◌, arith,
}
use oxinode.Prelude.Fields.{slice, slice-write_at_before, slice-write_at_self, get_or-slice}
use oxinode.Prelude.Finds.{same, same_self}
use oxinode.Hash.{be_bytes}
use oxinode.Hash.Md5
use oxinode.Hash.Sha256
use oxinode.Hash.Lengths.{length-md5}
use oxinode.Rnode.Command.{Command, write_rom, query_device_hash}
use oxinode.Rnode.Command.Cmd
use oxinode.Rnode.Eeprom.{
  Eeprom, read, write, info_block, stored_checksum, computed_checksum, status, is_provisioned,
  device_hash,
}
use oxinode.Rnode.Eeprom.Addr
use oxinode.Rnode.Eeprom.Layout.{IsImage}
use oxinode.Rnode.Protocol.{Protocol, handle, with_rom, device_hash_frames}

-- A run of commands.
unfoldable pub handle_all : List Command → Protocol → Protocol
unfolding handle
handle_all [] p = p
handle_all (c ∷ cs) p = handle_all cs (handle c p).device

-- The writes of bytes from an address on, a command for each.
unfoldable pub write_bytes : ℕ → Bytes → List Command
write_bytes at [] = []
write_bytes at (b ∷ bytes) = write_rom at b ∷ write_bytes (at + 1) bytes

-- What `rnodeconf` writes: the identity block, its MD5 behind it, and the lock byte.
abbrev pub provision : Bytes → List Command
provision block =
    write_bytes Addr.product block
    ++ (write_bytes Addr.checksum (Md5.digest block) ++ write_bytes Addr.info_lock (0x73 ∷ []))

handle_all-append :
    (xs ys : List Command) (p : Protocol)
    → handle_all (xs ++ ys) p ≡ handle_all ys (handle_all xs p)
unfolding handle_all
handle_all-append [] ys p = refl
handle_all-append (c ∷ xs) ys p = handle_all-append xs ys (handle c p).device

-- The device with the bytes of its image replaced.
abbrev with_bytes : Bytes → Protocol → Protocol
with_bytes bytes p = with_rom (record { bytes = bytes }) p

handle_all-write_bytes :
    (at : ℕ) (bytes : Bytes) (p : Protocol)
    → at + length bytes ≤ length p.store.rom.bytes
    → handle_all (write_bytes at bytes) p ≡ with_bytes (write_at at bytes p.store.rom.bytes) p
unfolding handle_all write_bytes write
handle_all-write_bytes at [] p h =
    ap (λ b. with_bytes b p) (sym (write_at-nil at p.store.rom.bytes))
handle_all-write_bytes at (b ∷ bytes) p h =
    let q : Protocol = with_bytes (set p.store.rom.bytes at b) p in
    handle_all-write_bytes (at + 1) bytes q (omega (arith, length-set p.store.rom.bytes at b))
    ∙ ap (λ bs. with_bytes bs p) (write_at-cons at b bytes p.store.rom.bytes (omega arith))

module _ (block : Bytes) (p : Protocol) (size : IsImage p.store.rom) (len : length block ≡ 11) where
  abbrev sum : Bytes
  sum = Md5.digest block

  abbrev image : Bytes
  image = p.store.rom.bytes

  abbrev named : Bytes
  named = write_at 0 block image

  abbrev summed : Bytes
  summed = write_at 0x0B sum named

  abbrev whole : Bytes
  whole = write_at 0x9B (0x73 ∷ []) summed

  length-named : length named ≡ 256
  length-named = length-write_at 0 block image (omega arith) ∙ size

  length-summed : length summed ≡ 256
  length-summed =
      length-write_at 0x0B sum named (omega (arith, length-named, length-md5 block)) ∙ length-named

  provisioned_image : handle_all (provision block) p ≡ with_bytes whole p
  provisioned_image =
      let rest = write_bytes 0x0B sum ++ write_bytes 0x9B (0x73 ∷ []) in
      handle_all-append (write_bytes 0 block) rest p
      ∙ ap (handle_all rest) (handle_all-write_bytes 0 block p (omega arith))
      ∙ handle_all-append (write_bytes 0x0B sum) (write_bytes 0x9B (0x73 ∷ [])) (with_bytes named p)
      ∙ ap (handle_all (write_bytes 0x9B (0x73 ∷ []))) (
          handle_all-write_bytes 0x0B sum (with_bytes named p)
            (omega (arith, length-named, length-md5 block)))
      ∙ handle_all-write_bytes 0x9B (0x73 ∷ []) (with_bytes summed p) (omega (arith, length-summed))

  block_back : slice 0 11 whole ≡ block
  block_back =
      slice-write_at_before 0 11 0x9B (0x73 ∷ []) summed (omega arith)
        (omega (arith, length-summed))
      ∙ slice-write_at_before 0 11 0x0B sum named (omega arith) (omega (arith, length-named))
      ∙ slice-write_at_self 0 11 block image len (omega arith)

  sum_back : slice 0x0B 16 whole ≡ sum
  sum_back =
      slice-write_at_before 0x0B 16 0x9B (0x73 ∷ []) summed (omega arith)
        (omega (arith, length-summed))
      ∙ slice-write_at_self 0x0B 16 sum named (length-md5 block) (omega (arith, length-named))

  lock_back : get_or whole 0x9B 0 ≡ 0x73
  lock_back =
      get_or-slice whole 0x9B 0
      ∙ ap (λ s. get_or s 0 0)
          (slice-write_at_self 0x9B 1 (0x73 ∷ []) summed refl (omega (arith, length-summed)))

provisioned-lem :
    (e : Eeprom) (sum : Bytes)
    → read 0x9B e ≡ 0x73
    → stored_checksum e ≡ sum
    → computed_checksum e ≡ sum
    → is_provisioned e ≡ true
unfolding is_provisioned status
provisioned-lem e sum lock stored computed =
    let matching : same (stored_checksum e) (computed_checksum e) ≡ true =
      ap₂ same stored computed ∙ same_self sum in
    rw (lock, matching) refl

-- Once the identity block, the MD5 of it and the lock byte are written, one command for each byte
-- and whatever the image held before, the device is provisioned, and it answers a query of its hash
-- with the SHA-256 of that block and of its chip's identity. A device that is not provisioned does
-- not answer that query.
pub handle_all-provision :
    (block : Bytes) (p : Protocol)
    → IsImage p.store.rom
    → length block ≡ 11
    → (is_provisioned (handle_all (provision block) p).store.rom ≡ true)
      × ((handle query_device_hash (handle_all (provision block) p)).frames
          ≡ (Cmd.dev_hash, Sha256.digest (block ++ be_bytes 8 p.mcu_id)) ∷ [])
      × (is_provisioned p.store.rom ≡ false → (handle query_device_hash p).frames ≡ [])
unfolding handle device_hash read stored_checksum computed_checksum info_block
handle_all-provision block p size len =
    let image = provisioned_image block p size len in
    let e : Eeprom = record { bytes = whole block p size len } in
    let q : Protocol = with_rom e p in
    let ok =
      provisioned-lem e (Md5.digest block) (lock_back block p size len) (sum_back block p size len)
        (ap Md5.digest (block_back block p size len)) in
    (
      ap (λ r. is_provisioned r.store.rom) image ∙ ok,
      ap (λ r. (handle query_device_hash r).frames) image
          ∙ ap (λ b. device_hash_frames b (device_hash e p.mcu_id)) ok
          ∙ ap (λ b. (Cmd.dev_hash, Sha256.digest (b ++ be_bytes 8 p.mcu_id)) ∷ [])
              (block_back block p size len),
      λ h. ap (λ b. device_hash_frames b (device_hash p.store.rom p.mcu_id)) h,
    )
