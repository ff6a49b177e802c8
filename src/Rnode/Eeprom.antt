-- ===== src/Rnode/Eeprom.antt =====
-- core/src/rnode/eeprom.rs: the image of the device's EEPROM that a host reads and writes.
pub mod Addr
pub mod Layout
pub mod Saved
mod Tests
use oxinode.Prelude.{
  ℕ, zero, suc, ◌+◌, ◌%◌, Bool, true, false, not, Option, none, some, [], ◌∷◌, ◌++◌, Bytes, set,
  get_or, replicate, if◌then◌else◌, ◌==◌,
}
use oxinode.Prelude.Fields.{slice}
use oxinode.Prelude.Finds.{same}
use oxinode.Prelude.Int.{ℤ, to_bits, to_signed}
use oxinode.Hash.{be_bytes, be_word}
use oxinode.Hash.Md5
use oxinode.Hash.Sha256
use oxinode.Lr1121.Config.{RadioConfig}

abbrev pub size : ℕ
size = 256

abbrev pub info_lock_byte : ℕ
info_lock_byte = 0x73

abbrev pub conf_ok_byte : ℕ
conf_ok_byte = 0x73

abbrev pub info_len : ℕ
info_len = 11

abbrev pub checksum_len : ℕ
checksum_len = 16

abbrev pub signature_len : ℕ
signature_len = 128

pub data Status : Type 0 where
  unprovisioned checksum_mismatch provisioned : Status

pub record StoredConfig : Type 0 where
  pub frequency_hz : ℕ
  pub bandwidth_hz : ℕ
  pub spreading_factor : ℕ
  pub coding_rate : ℕ
  pub tx_power_dbm : ℤ

pub record Eeprom : Type 0 where
  pub bytes : Bytes

unfoldable pub new : Eeprom
unfolding replicate
new = record { bytes = replicate size 0xFF }

unfoldable pub read : ℕ → Eeprom → ℕ
read addr e = get_or e.bytes addr 0

unfoldable pub write : ℕ → ℕ → Eeprom → Eeprom
write addr value e = record { bytes = set e.bytes addr value }

unfoldable pub wipe : Eeprom → Eeprom
unfolding replicate
wipe e = record { bytes = replicate size 0xFF }

unfoldable pub info_block : Eeprom → Bytes
info_block e = slice Addr.product info_len e.bytes

unfoldable pub computed_checksum : Eeprom → Bytes
unfolding info_block
computed_checksum e = Md5.digest (info_block e)

unfoldable pub stored_checksum : Eeprom → Bytes
stored_checksum e = slice Addr.checksum checksum_len e.bytes

unfoldable pub signature : Eeprom → Bytes
signature e = slice Addr.signature signature_len e.bytes

unfoldable pub status : Eeprom → Status
unfolding read computed_checksum stored_checksum
status e =
    if not (read Addr.info_lock e == info_lock_byte)
    then unprovisioned
    else if not (same (stored_checksum e) (computed_checksum e))
    then checksum_mismatch
    else provisioned

abbrev is_status_provisioned : Status → Bool
is_status_provisioned unprovisioned = false
is_status_provisioned checksum_mismatch = false
is_status_provisioned provisioned = true

unfoldable pub is_provisioned : Eeprom → Bool
unfolding status
is_provisioned e = is_status_provisioned (status e)

unfoldable pub identity : Eeprom → ℕ × ℕ × ℕ
unfolding read
identity e = (read Addr.product e, read Addr.model e, read Addr.hw_rev e)

unfoldable pub be32 : ℕ → Eeprom → ℕ
unfolding be_word
be32 at e = be_word e.bytes at

unfoldable pub serial : Eeprom → ℕ
unfolding be32
serial e = be32 Addr.serial e

unfoldable pub made : Eeprom → ℕ
unfolding be32
made e = be32 Addr.made e

unfoldable pub stored_config : Eeprom → Option StoredConfig
unfolding read be32
stored_config e =
    if not (read Addr.conf_ok e == conf_ok_byte)
    then none
    else some (record {
      frequency_hz = be32 Addr.conf_freq e;
      bandwidth_hz = be32 Addr.conf_bw e;
      spreading_factor = read Addr.conf_sf e;
      coding_rate = read Addr.conf_cr e;
      tx_power_dbm = to_signed 8 (read Addr.conf_txp e);
    })

-- The loop of `write_be32`, over the bytes from index `i` on.
unfoldable pub write_from : ℕ → ℕ → Bytes → Eeprom → Eeprom
unfolding write
write_from at i [] e = e
write_from at i (b ∷ bytes) e = write_from at (i + 1) bytes (write ((at + i) % 256) b e)

unfoldable pub write_be32 : ℕ → ℕ → Eeprom → Eeprom
unfolding write_from be_bytes
write_be32 at value e = write_from at 0 (be_bytes 4 value) e

unfoldable pub save_config : RadioConfig → Eeprom → Eeprom
unfolding write write_be32
save_config config e =
    let values =
      write Addr.conf_txp (to_bits 8 config.tx_power_dbm)
        (write Addr.conf_cr config.coding_rate (write Addr.conf_sf config.spreading_factor e)) in
    let tuned =
      write_be32 Addr.conf_freq config.frequency_hz
        (write_be32 Addr.conf_bw config.bandwidth_hz values) in
    write Addr.conf_ok conf_ok_byte tuned

unfoldable pub delete_config : Eeprom → Eeprom
unfolding write
delete_config e = write Addr.conf_ok 0xFF e

-- `u64::to_be_bytes` of the chip's identity behind the identity block.
unfoldable pub device_hash : Eeprom → (mcu_id : ℕ) → Bytes
unfolding info_block be_bytes
device_hash e mcu_id = Sha256.digest (info_block e ++ be_bytes 8 mcu_id)
