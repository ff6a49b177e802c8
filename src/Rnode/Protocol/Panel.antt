-- ===== src/Rnode/Protocol/Panel.antt =====
-- The changes that the panel makes, and the start from a stored configuration, of
-- core/src/rnode/protocol.rs. None of them answers on the wire.
use oxinode.Prelude.{Bool, true, false, not, Option, none, some, if◌then◌else◌}
use oxinode.Lr1121.Config.{RadioConfig, ConfigError}
use oxinode.Lr1121.Config.Setting.{Setting, apply, default_config, validate}
use oxinode.Rnode.Command.{on, off}
use oxinode.Rnode.Eeprom
use oxinode.Rnode.Eeprom.{StoredConfig}
use oxinode.Rnode.Store.{Bond, add_bond, clear_bonds}
use oxinode.Rnode.Protocol.{
  Action, Protocol, nothing, reconfigure, standby, radio_is_on, is_tnc, with_rom,
}

-- `PanelChange`, and the device afterwards.
pub record PanelChange : Type 0 where
  pub device : Protocol
  pub radio : Action
  pub persist : Bool

abbrev pub change : Protocol → Action → Bool → PanelChange
change p radio persist = record { device = p; radio = radio; persist = persist }

-- The two arms of `switch_on`, for what `ValidConfig::new` said.
unfoldable pub switched : Option ConfigError → Protocol → Protocol × Action
switched none p = (record p { last_error = none; state = on }, reconfigure)
switched (some e) p = (record p { last_error = some e; state = off }, standby)

unfoldable pub switch_on : Protocol → Protocol × Action
unfolding validate switched
switch_on p = switched (validate p.config) p

-- A radio that is on is programmed again.
unfoldable pub reprogram : Protocol → Protocol × Action
unfolding radio_is_on switch_on
reprogram p = if radio_is_on p then switch_on p else (p, nothing)

-- `save_config` of the image, where the device is to save.
unfoldable pub store_if : Bool → Protocol → Protocol
unfolding Eeprom.save_config
store_if false p = p
store_if true p = with_rom (Eeprom.save_config p.config p.store.rom) p

-- The part of `set_from_panel` behind the lock, with the setting landed.
unfoldable pub landed : Protocol → PanelChange
unfolding is_tnc store_if reprogram
landed edited =
    let persist = is_tnc edited in
    let (device, radio) = reprogram (store_if persist edited) in change device radio persist

unfoldable pub set_from_panel : Setting → Protocol → PanelChange
unfolding apply landed
set_from_panel setting p =
    if p.locked
    then change p nothing false
    else landed (record p { config = apply setting p.config })

unfoldable pub toggle_from_panel : Protocol → Protocol × Action
unfolding radio_is_on switch_on
toggle_from_panel p = if radio_is_on p then (record p { state = off }, standby) else switch_on p

unfoldable pub save_from_panel : Protocol → PanelChange
unfolding Eeprom.save_config
save_from_panel p = change (with_rom (Eeprom.save_config p.config p.store.rom) p) nothing true

-- The five fields that are stored.
unfoldable pub with_stored : StoredConfig → RadioConfig → RadioConfig
with_stored s c = record c {
  frequency_hz = s.frequency_hz;
  bandwidth_hz = s.bandwidth_hz;
  spreading_factor = s.spreading_factor;
  coding_rate = s.coding_rate;
  tx_power_dbm = s.tx_power_dbm;
}

-- The two arms of the start, for what `ValidConfig::new` said.
unfoldable pub resumed : Option ConfigError → Protocol → Protocol × Action
resumed none p = (record p { last_error = none; state = on }, reconfigure)
resumed (some e) p = (record p { last_error = some e; state = off }, nothing)

unfoldable pub resume_from : Option StoredConfig → Protocol → Protocol × Action
unfolding validate with_stored resumed
resume_from none p = (p, nothing)
resume_from (some s) p =
    let config = with_stored s p.config in resumed (validate config) (record p { config = config })

unfoldable pub resume_stored_config : Protocol → Protocol × Action
unfolding Eeprom.stored_config resume_from
resume_stored_config p = resume_from (Eeprom.stored_config p.store.rom) p

-- What src/bin/rnode.rs does to the store by `store_mut`. A phone that has paired: the device, and whether
-- the record is to be written.
unfoldable pub pair_phone : Bond → Protocol → Protocol × Bool
unfolding add_bond
pair_phone bond p =
    (record p { store = record p.store { bonds = add_bond bond p.store.bonds } }, true)

unfoldable pub forget_bonds : Protocol → PanelChange
unfolding clear_bonds
forget_bonds p =
    change (record p { store = record p.store { bonds = clear_bonds p.store.bonds } }) nothing true

unfoldable pub toggle_alert : Protocol → PanelChange
toggle_alert p =
    change (record p { store = record p.store { alert = not p.store.alert } }) nothing true

unfoldable pub reset_from_panel : Protocol → Protocol × Action
unfolding is_tnc resume_stored_config reprogram
reset_from_panel p =
    if is_tnc p then resume_stored_config p else reprogram (record p { config = default_config })
