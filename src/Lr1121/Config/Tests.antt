-- ===== src/Lr1121/Config/Tests.antt =====
-- `check_in` at the default configuration.
use oxinode.Prelude.{true, false, none, some, ◌≡◌, ◌↔◌, refl}
use oxinode.Prelude.Int.{pos}
use oxinode.Lr1121.Pa.{Band}
use oxinode.Lr1121.Config.{airtime_us, RadioConfig, Bands, check_in, power_above_module_rating}
use oxinode.Lr1121.Config.Valid.{IsAllowedOn, check_in-IsAllowedOn}

abbrev default_config : RadioConfig
default_config = record {
  frequency_hz = 915000000;
  bandwidth_hz = 125000;
  spreading_factor = 8;
  coding_rate = 5;
  tx_power_dbm = pos 14;
  preamble_symbols = 18;
  sync_word = 0x12;
  correct_reference = true;
  implicit_header = false;
  crc = true;
  invert_iq = false;
}

abbrev both : Bands
both = record { sub_ghz_on = true; high_frequency_on = true }

check_in-default : check_in default_config both ≡ none
unfolding check_in
check_in-default = refl

check_in-loud :
    check_in (record default_config { tx_power_dbm = pos 21 }) both ≡ some power_above_module_rating
unfolding check_in
check_in-loud = refl

check_in-IsAllowedOn_example :
    (check_in default_config both ≡ none) ↔ ((band : Band) × IsAllowedOn both default_config band)
check_in-IsAllowedOn_example = check_in-IsAllowedOn default_config both

-- The longest preamble at the slowest rate: the airtime does not fit 32 bits, and is cut to 27 s.
abbrev endless : RadioConfig
endless = record default_config {
  spreading_factor = 12;
  bandwidth_hz = 62500;
  coding_rate = 8;
  preamble_symbols = 65535;
}

endless-run : (check_in endless both ≡ none) × (airtime_us endless 255 ≡ 27475968)
unfolding check_in airtime_us
endless-run = (refl, refl)
