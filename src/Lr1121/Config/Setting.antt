-- ===== src/Lr1121/Config/Setting.antt =====
-- core/src/lr1121/config.rs: the configurations that the board starts from, one setting landed in a
-- configuration, and a configuration moved to a band.
use oxinode.Prelude.{
  ℕ, ◌*◌, ◌^◌, Bool, true, false, Option, none, some, if◌then◌else◌, leb, ◌&&◌, bit_or,
}
use oxinode.Prelude.Int.{ℤ, pos, ltb_ℤ}
use oxinode.Lr1121.Lora
use oxinode.Lr1121.Pa.{
  Band, sub_ghz, high_frequency, PaConfigWord, low_power, band_of, pa_config_in,
}
use oxinode.Lr1121.Config.{
  RadioConfig, Bands, ConfigError, check_in, bandwidth_code_in, coding_rate_code,
}

abbrev pub sync_word_private : ℕ
sync_word_private = 0x12

-- `Bands::ALL`.
abbrev pub all_bands : Bands
all_bands = record { sub_ghz_on = true; high_frequency_on = true }

-- `DEFAULT`.
abbrev pub default_config : RadioConfig
default_config = record {
  frequency_hz = 915000000;
  bandwidth_hz = 125000;
  spreading_factor = 8;
  coding_rate = 5;
  tx_power_dbm = pos 14;
  preamble_symbols = 8;
  sync_word = sync_word_private;
  correct_reference = false;
  implicit_header = false;
  crc = true;
  invert_iq = false;
}

abbrev pub bench_2g4 : RadioConfig
bench_2g4 = record {
  frequency_hz = 2478000000;
  bandwidth_hz = 812500;
  spreading_factor = 8;
  coding_rate = 5;
  tx_power_dbm = pos 11;
  preamble_symbols = 8;
  sync_word = sync_word_private;
  correct_reference = false;
  implicit_header = false;
  crc = true;
  invert_iq = false;
}

abbrev pub landing_2g4 : RadioConfig
landing_2g4 = record bench_2g4 { bandwidth_hz = 406250 }

pub data Setting : Type 0 where
  frequency bandwidth spreading_factor coding_rate : ℕ → Setting
  tx_power : ℤ → Setting
  band : Band → Setting

abbrev landing : Band → RadioConfig
landing sub_ghz = default_config
landing high_frequency = landing_2g4

-- The `matches!` of `on_band`.
abbrev is_on : Option Band → Band → Bool
is_on (some sub_ghz) sub_ghz = true
is_on (some high_frequency) high_frequency = true
is_on _ _ = false

unfoldable pub on_band : Band → RadioConfig → RadioConfig
unfolding band_of
on_band b c = if is_on (band_of c.frequency_hz) b then c else record c {
  frequency_hz = (landing b).frequency_hz;
  bandwidth_hz = (landing b).bandwidth_hz;
  tx_power_dbm = (landing b).tx_power_dbm;
}

unfoldable pub apply : Setting → RadioConfig → RadioConfig
unfolding on_band
apply (frequency hz) c = record c { frequency_hz = hz }
apply (bandwidth hz) c = record c { bandwidth_hz = hz }
apply (spreading_factor sf) c = record c { spreading_factor = sf }
apply (coding_rate cr) c = record c { coding_rate = cr }
apply (tx_power dbm) c = record c { tx_power_dbm = dbm }
apply (band b) c = on_band b c

-- `ValidConfig::new`: the error, or nothing.
unfoldable pub validate : RadioConfig → Option ConfigError
unfolding check_in
validate c = check_in c all_bands

unfoldable pub is_rnode_representable : RadioConfig → Bool
is_rnode_representable c =
    leb 7 c.spreading_factor
    && leb c.spreading_factor 12
    && (if ltb_ℤ c.tx_power_dbm (pos 0) then false else true)

-- The methods of `ValidConfig`, each with the answer it has for what cannot be.
unfoldable pub valid_band : RadioConfig → Band
unfolding band_of
valid_band c = elim (band_of c.frequency_hz) [ none ↦ sub_ghz | some b ↦ b ]

abbrev code_on : Option Band → ℕ → Option ℕ
code_on none hz = none
code_on (some b) hz = bandwidth_code_in b hz

unfoldable pub bandwidth_code : RadioConfig → ℕ
unfolding band_of bandwidth_code_in
bandwidth_code c = elim (code_on (band_of c.frequency_hz) c.bandwidth_hz) [
  | none ↦ 0x04
  | some code ↦ code
]

unfoldable pub valid_coding_rate_code : RadioConfig → ℕ
unfolding coding_rate_code
valid_coding_rate_code c = elim (coding_rate_code c.coding_rate) [ none ↦ 0x01 | some code ↦ code ]

-- The four bytes of `SetModulationParams` as one word.
unfoldable pub modulation_word : RadioConfig → ℕ
unfolding bandwidth_code valid_coding_rate_code Lora.low_data_rate_optimize
modulation_word c =
    let ldro = if Lora.low_data_rate_optimize c.spreading_factor c.bandwidth_hz then 1 else 0 in
    bit_or
      (bit_or (bit_or (c.spreading_factor * 2 ^ 24) (bandwidth_code c * 2 ^ 16))
        (valid_coding_rate_code c * 2 ^ 8))
      ldro

unfoldable pub valid_pa_config : RadioConfig → PaConfigWord
unfolding band_of pa_config_in
valid_pa_config c = elim (band_of c.frequency_hz) [
  | none ↦ low_power
  | some b ↦ elim (pa_config_in b c.tx_power_dbm) [ none ↦ low_power | some word ↦ word ]
]
