-- ===== src/Lr1121/Pa.antt =====
-- core/src/lr1121/pa.rs: which amplifier a power selects, and the bands.
use oxinode.Prelude.{ℕ, Bool, not, ◌&&◌, Option, none, some, if◌then◌else◌, leb}
use oxinode.Prelude.Int.{ℤ, pos, negsuc, ltb_ℤ}

pub record PaConfigWord : Type 0 where
  pub pa_sel : ℕ
  pub reg_pa_supply : ℕ
  pub duty_cycle : ℕ
  pub hp_sel : ℕ

abbrev pub low_power : PaConfigWord
low_power = record { pa_sel = 0; reg_pa_supply = 0; duty_cycle = 0x04; hp_sel = 0x00 }

abbrev pub high_frequency_word : PaConfigWord
high_frequency_word = record { pa_sel = 2; reg_pa_supply = 0; duty_cycle = 0x04; hp_sel = 0x00 }

pub data Band : Type 0 where
  sub_ghz high_frequency : Band

-- From -18 to 13 dBm.
unfoldable pub high_frequency_pa_accepts : ℤ → Bool
high_frequency_pa_accepts dbm = not (ltb_ℤ dbm (negsuc 17)) && not (ltb_ℤ (pos 13) dbm)

unfoldable pub module_max_dbm : Band → ℤ
module_max_dbm sub_ghz = pos 20
module_max_dbm high_frequency = pos 11

-- From -17 to 14 dBm.
unfoldable pub low_power_pa_accepts : ℤ → Bool
low_power_pa_accepts dbm = not (ltb_ℤ dbm (negsuc 16)) && not (ltb_ℤ (pos 14) dbm)

unfoldable pub requires_vbat_supply : ℤ → Bool
requires_vbat_supply dbm = ltb_ℤ (pos 14) dbm

-- From -9 to 22 dBm.
unfoldable pub high_power_pa_accepts : ℤ → Bool
high_power_pa_accepts dbm = not (ltb_ℤ dbm (negsuc 8)) && not (ltb_ℤ (pos 22) dbm)

unfoldable pub high_power : ℤ → PaConfigWord
unfolding requires_vbat_supply
high_power dbm = record {
  pa_sel = 1;
  reg_pa_supply = if requires_vbat_supply dbm then 1 else 0;
  duty_cycle = 0x04;
  hp_sel = 0x07;
}

unfoldable pub pa_config_for : ℤ → Option PaConfigWord
unfolding low_power_pa_accepts high_power_pa_accepts high_power
pa_config_for dbm =
    if low_power_pa_accepts dbm
    then some low_power
    else if high_power_pa_accepts dbm
    then some (high_power dbm)
    else none

unfoldable pub pa_config_in : Band → ℤ → Option PaConfigWord
unfolding pa_config_for high_frequency_pa_accepts
pa_config_in sub_ghz dbm = pa_config_for dbm
pa_config_in high_frequency dbm =
    if high_frequency_pa_accepts dbm then some high_frequency_word else none

unfoldable pub is_in_us915 : ℕ → Bool
is_in_us915 hz = leb 902000000 hz && leb hz 928000000

unfoldable pub is_in_2g4 : ℕ → Bool
is_in_2g4 hz = leb 2400000000 hz && leb hz 2483500000

unfoldable pub band_of : ℕ → Option Band
unfolding is_in_us915 is_in_2g4
band_of hz =
    if is_in_us915 hz then some sub_ghz else if is_in_2g4 hz then some high_frequency else none
