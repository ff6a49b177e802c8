-- ===== src/Rnode/Eeprom/Tests.antt =====
-- An erased image that is provisioned and given a configuration.
use oxinode.Prelude.{some, none, ◌≡◌, refl, arith}
use oxinode.Lr1121.Config.Setting.{default_config}
use oxinode.Rnode.Eeprom
use oxinode.Rnode.Eeprom.{
  Eeprom, stored_config, save_config, delete_config, read, status, unprovisioned, be32, write,
  write_be32, write_from,
}
use oxinode.Rnode.Eeprom.Layout.{IsImage}
use oxinode.Rnode.Eeprom.Saved.{
  SameIdentity, stored_of, stored_config-save_config, saved-SameIdentity,
}

abbrev erased : Eeprom
erased = Eeprom.new

erased-IsImage : IsImage erased
unfolding Eeprom.new
erased-IsImage = refl

erased-status : status erased ≡ unprovisioned
unfolding Eeprom.new status
erased-status = refl

erased-stored_config : stored_config erased ≡ none
unfolding Eeprom.new stored_config
erased-stored_config = refl

saved_frequency : be32 0xA3 (save_config default_config erased) ≡ 915000000
unfolding Eeprom.new save_config be32
saved_frequency = refl

stored_config-save_config_example :
    stored_config (save_config default_config erased) ≡ some (stored_of default_config)
stored_config-save_config_example =
    stored_config-save_config default_config erased erased-IsImage
      (omega arith, omega arith, omega arith, omega arith)

saved-SameIdentity_example :
    SameIdentity (save_config default_config erased) erased
    × SameIdentity (delete_config erased) erased
saved-SameIdentity_example = saved-SameIdentity default_config erased
