-- ===== src/Lr1121/Config.antt =====
-- core/src/lr1121/config.rs: a configuration of the radio, and whether the radio may be given it.
pub mod Setting
pub mod Valid
mod Tests
use oxinode.Prelude.{
  ℕ, ◌-◌, Bool, true, false, not, ◌||◌, List, [], ◌∷◌, Option, none, some, if◌then◌else◌, ltb, ◌==◌,
}
use oxinode.Prelude.Int.{ℤ, ltb_ℤ}
use oxinode.Lr1121.Lora
use oxinode.Lr1121.Lora.{bandwidths, bandwidths_2g4, sf_min, sf_max}
use oxinode.Lr1121.Pa.{
  Band, sub_ghz, high_frequency, PaConfigWord, band_of, module_max_dbm, pa_config_in,
}

-- The bands that are allowed.
pub record Bands : Type 0 where
  pub sub_ghz_on : Bool
  pub high_frequency_on : Bool

unfoldable pub allows : Bands → Band → Bool
allows bands sub_ghz = bands.sub_ghz_on
allows bands high_frequency = bands.high_frequency_on

pub record RadioConfig : Type 0 where
  pub frequency_hz : ℕ
  pub bandwidth_hz : ℕ
  pub spreading_factor : ℕ
  pub coding_rate : ℕ
  pub tx_power_dbm : ℤ
  pub preamble_symbols : ℕ
  pub sync_word : ℕ
  pub correct_reference : Bool
  pub implicit_header : Bool
  pub crc : Bool
  pub invert_iq : Bool

pub data ConfigError : Type 0 where
  frequency_out_of_band unsupported_bandwidth bandwidth_not_in_band : ConfigError
  spreading_factor_out_of_range coding_rate_out_of_range : ConfigError
  power_unreachable power_above_module_rating power_above_2g4_rating : ConfigError
  preamble_too_short : ConfigError

abbrev pub preamble_min : ℕ
preamble_min = 6

-- The loop of `bandwidth_code_in` over a table.
unfoldable pub code_in : List (ℕ × ℕ) → ℕ → Option ℕ
code_in [] hz = none
code_in ((code, bw) ∷ rest) hz = if bw == hz then some code else code_in rest hz

unfoldable pub bandwidth_code_in : Band → ℕ → Option ℕ
unfolding code_in
bandwidth_code_in sub_ghz hz = code_in bandwidths hz
bandwidth_code_in high_frequency hz = code_in bandwidths_2g4 hz

unfoldable pub coding_rate_code : ℕ → Option ℕ
coding_rate_code cr = if ltb cr 5 || ltb 8 cr then none else some (cr - 4)

abbrev pub is_none {ℓ} : {A : Type ℓ} → Option A → Bool
is_none none = true
is_none (some a) = false

abbrev pub other_band : Band → Band
other_band sub_ghz = high_frequency
other_band high_frequency = sub_ghz

abbrev pub above_rating : Band → ConfigError
above_rating sub_ghz = power_above_module_rating
above_rating high_frequency = power_above_2g4_rating

-- The checks of `check_in` from the spreading factor on, which do not look at the tables.
unfoldable pub check_rest : Band → RadioConfig → Option ConfigError
unfolding module_max_dbm pa_config_in
check_rest band c =
    if ltb c.spreading_factor sf_min || ltb sf_max c.spreading_factor
    then some spreading_factor_out_of_range
    else if ltb c.coding_rate 5 || ltb 8 c.coding_rate
    then some coding_rate_out_of_range
    else if ltb_ℤ (module_max_dbm band) c.tx_power_dbm
    then some (above_rating band)
    else if is_none (pa_config_in band c.tx_power_dbm)
    then some power_unreachable
    else if ltb c.preamble_symbols preamble_min
    then some preamble_too_short
    else none

unfoldable pub check_on : Band → RadioConfig → Option ConfigError
unfolding bandwidth_code_in check_rest
check_on band c =
    if is_none (bandwidth_code_in band c.bandwidth_hz)
    then some (
        if is_none (bandwidth_code_in (other_band band) c.bandwidth_hz)
        then unsupported_bandwidth
        else bandwidth_not_in_band)
    else check_rest band c

abbrev pub allowed : Bands → Option Band → Option Band
allowed bands none = none
allowed bands (some band) = if allows bands band then some band else none

-- `check_in`: the error, or nothing for `Ok(())`.
unfoldable pub check_in : RadioConfig → Bands → Option ConfigError
unfolding check_on allows band_of
check_in c bands = elim (allowed bands (band_of c.frequency_hz)) [
  | none ↦ some frequency_out_of_band
  | some band ↦ check_on band c
]

-- The methods of the same names, which pass the fields on.
unfoldable pub symbol_time_us : RadioConfig → ℕ
unfolding Lora.symbol_time_us
symbol_time_us c = Lora.symbol_time_us c.spreading_factor c.bandwidth_hz

unfoldable pub airtime_us : RadioConfig → ℕ → ℕ
unfolding Lora.airtime_us coding_rate_code
airtime_us c payload_len = elim (coding_rate_code c.coding_rate) [
  | none ↦ 0
  | some cr ↦
      Lora.airtime_us c.spreading_factor c.bandwidth_hz cr c.preamble_symbols payload_len
        (not c.implicit_header) c.crc
]
