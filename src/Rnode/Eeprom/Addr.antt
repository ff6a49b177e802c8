-- ===== src/Rnode/Eeprom/Addr.antt =====
-- The addresses of core/src/rnode/eeprom.rs that this firmware reads or writes.
use oxinode.Prelude.{ℕ}

abbrev pub product : ℕ
product = 0x00

abbrev pub model : ℕ
model = 0x01

abbrev pub hw_rev : ℕ
hw_rev = 0x02

abbrev pub serial : ℕ
serial = 0x03

abbrev pub made : ℕ
made = 0x07

abbrev pub checksum : ℕ
checksum = 0x0B

abbrev pub signature : ℕ
signature = 0x1B

abbrev pub info_lock : ℕ
info_lock = 0x9B

abbrev pub conf_sf : ℕ
conf_sf = 0x9C

abbrev pub conf_cr : ℕ
conf_cr = 0x9D

abbrev pub conf_txp : ℕ
conf_txp = 0x9E

abbrev pub conf_bw : ℕ
conf_bw = 0x9F

abbrev pub conf_freq : ℕ
conf_freq = 0xA3

abbrev pub conf_ok : ℕ
conf_ok = 0xA7
