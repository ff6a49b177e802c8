-- ===== src/Rnode/Protocol/Tests.antt =====
-- A device that a host provisions, configures and saves.
use oxinode.Prelude.{true, false, List, [], ◌∷◌, ◌++◌, none, some, Bytes, ◌≡◌, refl, arith}
use oxinode.Hash.{be_bytes}
use oxinode.Hash.Sha256
use oxinode.Lr1121.Config.Setting.{Setting, band}
use oxinode.Lr1121.Pa.{high_frequency}
use oxinode.Rnode.Command.{
  Command, write_rom, set_frequency, set_radio_state, save_config, query_device_hash, on,
}
use oxinode.Rnode.Command.Cmd
use oxinode.Rnode.Eeprom.{is_provisioned}
use oxinode.Rnode.Eeprom.Saved.{IsStorable}
use oxinode.Rnode.Store.Record
use oxinode.Rnode.Store.Record.{DeviceStore, encode, decode}
use oxinode.Rnode.Store.RecordFields.{IsStore}
use oxinode.Rnode.Store.BondTable.{AreBonds}
use oxinode.Rnode.Protocol
use oxinode.Rnode.Protocol.{Protocol, handle, with_storage, reconfigure, standby, report_all}
use oxinode.Rnode.Protocol.Panel.{toggle_alert, set_from_panel, resume_stored_config}
use oxinode.Rnode.Protocol.Radio.{Permits, after, host_sends, panel_alerts, after-Permits}
use oxinode.Rnode.Protocol.Lock.{locked-config, must_save}
use oxinode.Rnode.Protocol.Persist.{
  Board, Step, event, turns, run, takes, settle, commit, IsSaved, Settles, run-Saved,
}
use oxinode.Rnode.Protocol.Storage.{StartsWith, restart-StartsWith}
use oxinode.Rnode.Protocol.Answers.{IsInRange, Echoes, held_by, handle-Echoes}
use oxinode.Rnode.Protocol.Provisioning.{provision, handle_all, handle_all-provision}

abbrev fresh : Protocol
fresh = Protocol.new

switches_on : (handle (set_radio_state on) fresh).action ≡ reconfigure
unfolding handle Protocol.new
switches_on = refl

refused : (handle (set_radio_state on) (handle (set_frequency 1) fresh).device).action ≡ standby
unfolding handle Protocol.new
refused = refl

moved_band : (set_from_panel (band high_frequency) fresh).device.config.frequency_hz ≡ 2478000000
unfolding set_from_panel Protocol.new
moved_band = refl

after-Permits_example : Permits fresh (after (host_sends (set_radio_state on)) fresh)
after-Permits_example = after-Permits (host_sends (set_radio_state on)) fresh

abbrev locked_device : Protocol
locked_device = record fresh { locked = true }

locked-config_example :
    ((c : Command) → (handle c locked_device).device.config ≡ locked_device.config)
    × ((s : Setting) → (set_from_panel s locked_device).device.config ≡ locked_device.config)
locked-config_example = locked-config locked_device refl

abbrev fresh_board : Board
fresh_board = record { device = fresh; flash = fresh.store; dirty_since = none }

-- A cell of the image is written, and the buzzer switched; the loop turns once too early, and once late.
abbrev provisioned : List Step
provisioned =
    event (host_sends (write_rom 3 7)) 100 true ∷ event panel_alerts 200 true ∷ turns 300 true ∷ []

not_yet : (run provisioned fresh_board).flash.alert ≡ true
unfolding run takes settle commit after handle must_save toggle_alert Protocol.new
not_yet = refl

late_enough : (settle 451 true (run provisioned fresh_board)).flash.alert ≡ false
unfolding run takes settle commit after handle must_save toggle_alert Protocol.new
late_enough = refl

run-Saved_example :
    IsSaved (run provisioned fresh_board)
    × Settles 451
        (run provisioned fresh_board).dirty_since
        (settle 451 true (run provisioned fresh_board))
run-Saved_example = run-Saved provisioned fresh_board 451 refl (refl, (refl, (refl, tt)))

fresh-IsStore : IsStore fresh.store
unfolding Protocol.new AreBonds Record.bonds_in
fresh-IsStore = (refl, tt, tt, refl, tt)

fresh-IsStorable : IsStorable fresh.config
unfolding Protocol.new
fresh-IsStorable = (omega arith, omega arith, omega arith, omega arith)

restart-StartsWith_example :
    (s : DeviceStore) × (decode (encode (handle save_config fresh).device.store) ≡ some s)
    × StartsWith fresh.config (resume_stored_config (with_storage s 7))
restart-StartsWith_example = restart-StartsWith fresh 7 fresh-IsStore fresh-IsStorable

tuned-IsInRange : IsInRange (handle (set_frequency 868000000) fresh).device
unfolding handle Protocol.new
tuned-IsInRange = ((omega arith, omega arith, omega arith, omega arith), omega arith, omega arith)

tuned :
    held_by (set_frequency 868000000) (handle (set_frequency 868000000) fresh).device
    ≡ some (set_frequency 868000000)
unfolding handle Protocol.new
tuned = refl

handle-Echoes_example :
    Echoes (set_frequency 868000000) (handle (set_frequency 868000000) fresh).frames
    × (fresh.locked ≡ false → set_frequency 868000000 ≡ set_frequency 868000000)
handle-Echoes_example =
    handle-Echoes (set_frequency 868000000) fresh (set_frequency 868000000) tuned-IsInRange tuned

abbrev block : Bytes
block = 0xF0 ∷ 0xFF ∷ 1 ∷ 0 ∷ 0 ∷ 0 ∷ 1 ∷ 0x68 ∷ 0xBB ∷ 0xCC ∷ 0xDD ∷ []

handle_all-provision_example :
    (is_provisioned (handle_all (provision block) fresh).store.rom ≡ true)
    × ((handle query_device_hash (handle_all (provision block) fresh)).frames
        ≡ (Cmd.dev_hash, Sha256.digest (block ++ be_bytes 8 fresh.mcu_id)) ∷ [])
    × (is_provisioned fresh.store.rom ≡ false → (handle query_device_hash fresh).frames ≡ [])
handle_all-provision_example = handle_all-provision block fresh fresh-IsStore.0 refl
