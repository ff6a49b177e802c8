-- ===== src/Rnode/Eeprom/Saved.antt =====
-- The stored configuration: read back as saved, and apart from the identity.
use oxinode.Prelude.{
  ℕ, ◌+◌, ◌*◌, ◌^◌, ◌≤◌, ◌<◌, true, not, Option, none, some, Bytes, get_or, subst, ◌++◌, ◌≡◌, refl,
  ap, sym, ◌∙◌, fun_ext, arith, ◌==◌, if◌then◌else◌,
}
use oxinode.Prelude.Fields.{slice, get_or-slice}
use oxinode.Prelude.Finds.{same}
use oxinode.Prelude.Int.{ℤ, pos, negsuc, pos_part, neg_part, to_bits, to_signed}
use oxinode.Hash.{be_bytes, be_word}
use oxinode.Hash.Sha256
use oxinode.Hash.Md5
use oxinode.Lr1121.Config.{RadioConfig}
use oxinode.Rnode.Eeprom.{
  Eeprom, StoredConfig, Status, read, be32, status, signature, stored_config, save_config,
  delete_config, device_hash, info_block, stored_checksum, computed_checksum, conf_ok_byte,
  info_lock_byte, unprovisioned, checksum_mismatch, provisioned,
}
use oxinode.Rnode.Eeprom.Addr
use oxinode.Rnode.Eeprom.Layout.{
  IsImage, Cells, write_all, held, within, read-write_all, slice-write_all, saved_cells,
  save_config-write_all, saved_cells-within, saved_cells-within_image, deleted_cells,
  delete_config-write_all,
}

-- A configuration whose fields fit the words that they are stored in: what the types `u32` and `i8`
-- of the source say.
abbrev pub IsStorable : RadioConfig → Type 0
IsStorable c =
    (c.frequency_hz < 2 ^ 32)
    × (c.bandwidth_hz < 2 ^ 32)
    × (pos_part c.tx_power_dbm ≤ 127)
    × (neg_part c.tx_power_dbm ≤ 128)

-- The five parameters of a configuration that are stored.
abbrev pub stored_of : RadioConfig → StoredConfig
stored_of c = record {
  frequency_hz = c.frequency_hz;
  bandwidth_hz = c.bandwidth_hz;
  spreading_factor = c.spreading_factor;
  coding_rate = c.coding_rate;
  tx_power_dbm = c.tx_power_dbm;
}

pub to_signed-to_bits :
    (p : ℤ) → pos_part p ≤ 127 → neg_part p ≤ 128 → to_signed 8 (to_bits 8 p) ≡ p
unfolding to_signed to_bits
to_signed-to_bits (pos n) h k = ground arith
to_signed-to_bits (negsuc n) h k = ground arith

congr_stored :
    {f f' b b' sf cr : ℕ} {p p' : ℤ}
    → f ≡ f'
    → b ≡ b'
    → p ≡ p'
    → let r : ℕ → ℕ → ℤ → StoredConfig = λ f b p. record {
      frequency_hz = f;
      bandwidth_hz = b;
      spreading_factor = sf;
      coding_rate = cr;
      tx_power_dbm = p;
    } in
      r f b p ≡ r f' b' p'
congr_stored x y z = rw (x, y, z) refl

-- What `stored_config` makes of the twelve cells it reads.
abbrev config_of : (ℕ → ℕ) → Option StoredConfig
config_of cell =
    if not (cell 0xA7 == conf_ok_byte)
    then none
    else some (record {
      frequency_hz = cell 0xA3 * 0x1000000 + cell 0xA4 * 0x10000 + cell 0xA5 * 0x100 + cell 0xA6;
      bandwidth_hz = cell 0x9F * 0x1000000 + cell 0xA0 * 0x10000 + cell 0xA1 * 0x100 + cell 0xA2;
      spreading_factor = cell 0x9C;
      coding_rate = cell 0x9D;
      tx_power_dbm = to_signed 8 (cell 0x9E);
    })

stored_config-cells : (e : Eeprom) → stored_config e ≡ config_of (λ a. read a e)
unfolding stored_config be32 be_word read
stored_config-cells e = refl

after_cells :
    (cells : Cells) (e : Eeprom)
    → IsImage e
    → within 0 256 cells ≡ true
    → stored_config (write_all cells e) ≡ config_of (λ a. held cells a (read a e))
after_cells cells e h k =
    stored_config-cells (write_all cells e)
    ∙ ap config_of (fun_ext (λ a. read-write_all cells e a h k))

-- A configuration that is saved is read back, whatever the image held before.
pub stored_config-save_config :
    (c : RadioConfig) (e : Eeprom)
    → IsImage e
    → IsStorable c
    → stored_config (save_config c e) ≡ some (stored_of c)
unfolding held
stored_config-save_config c e h (f, b, p, n) =
    ap stored_config (save_config-write_all c e)
    ∙ after_cells (saved_cells c) e h (saved_cells-within_image c)
    ∙ ap some (congr_stored (omega arith) (omega arith) (to_signed-to_bits c.tx_power_dbm p n))

deleted-within : within 0x9C 0xA8 deleted_cells ≡ true
unfolding within
deleted-within = refl

-- The identity of an image, with all that the host and the device make of it.
abbrev pub SameIdentity : Eeprom → Eeprom → Type 0
SameIdentity e e' =
    (status e ≡ status e')
    × (signature e ≡ signature e')
    × ((id : ℕ) → device_hash e id ≡ device_hash e' id)

abbrev status_of : ℕ → Bytes → Bytes → Status
status_of lock stored block =
    if not (lock == info_lock_byte)
    then unprovisioned
    else if not (same stored (Md5.digest block))
    then checksum_mismatch
    else provisioned

status-status_of :
    (e : Eeprom)
    → status e
      ≡ status_of
          (get_or (slice Addr.info_lock 1 e.bytes) 0 0)
          (slice Addr.checksum 16 e.bytes)
          (slice Addr.product 11 e.bytes)
unfolding status read stored_checksum computed_checksum info_block
status-status_of e =
    ap (λ lock. status_of lock (slice Addr.checksum 16 e.bytes) (slice Addr.product 11 e.bytes))
      (get_or-slice e.bytes Addr.info_lock 0)

-- Writes behind the lock byte leave the identity.
apart :
    (cells : Cells) (e : Eeprom)
    → within 0x9C 0xA8 cells ≡ true
    → SameIdentity (write_all cells e) e
unfolding signature device_hash info_block
apart cells e h =
    let same_at : (i n : ℕ)
        → i + n ≤ 0x9C
        → slice i n (write_all cells e).bytes ≡ slice i n e.bytes =
      λ i n k. slice-write_all cells e 0x9C 0xA8 i n h k in
    let info = same_at Addr.product 11 (omega arith) in
    let sum = same_at Addr.checksum 16 (omega arith) in
    let lock = same_at Addr.info_lock 1 (omega arith) in
    (
      status-status_of (write_all cells e) ∙ rw (info, sum, lock) (sym (status-status_of e)),
      same_at Addr.signature 128 (omega arith),
      λ id. ap (λ block. Sha256.digest (block ++ be_bytes 8 id)) info,
    )

-- Saving a configuration, and forgetting it, leave what a host makes of the image, the signature
-- and the device's hash.
pub saved-SameIdentity :
    (c : RadioConfig) (e : Eeprom)
    → SameIdentity (save_config c e) e × SameIdentity (delete_config e) e
saved-SameIdentity c e = (
  subst (λ saved. SameIdentity saved e) (sym (save_config-write_all c e))
      (apart (saved_cells c) e (saved_cells-within c)),
  subst (λ deleted. SameIdentity deleted e) (sym (delete_config-write_all e))
      (apart deleted_cells e deleted-within),
)

-- After `delete_config` there is no stored configuration.
pub stored_config-delete_config : (e : Eeprom) → IsImage e → stored_config (delete_config e) ≡ none
unfolding held within
stored_config-delete_config e h =
    ap stored_config (delete_config-write_all e) ∙ after_cells deleted_cells e h refl
