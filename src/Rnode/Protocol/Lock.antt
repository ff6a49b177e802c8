-- ===== src/Rnode/Protocol/Lock.antt =====
-- What the lock keeps, and what has to be written to flash.
use oxinode.Prelude.{
  Bool, true, false, Option, none, some, if◌then◌else◌, ◌≡◌, ◌⊎◌, inl, inr, refl, ap, sym, ◌∙◌,
  subst, Bool-cases, arith,
}
use oxinode.Lr1121.Config.{RadioConfig, ConfigError}
use oxinode.Lr1121.Config.Setting.{Setting, validate, apply, default_config}
use oxinode.Rnode.Command.{
  Command, RadioState, on, off, ask, data_packet, set_frequency, set_bandwidth, set_tx_power,
  set_spreading_factor, set_coding_rate, set_radio_state, set_radio_lock, set_short_airtime_limit,
  set_long_airtime_limit, detect, leave, query_firmware_version, query_platform, query_mcu,
  query_board, read_rom, write_rom, wipe_rom, save_config, delete_config, reset, query_device_hash,
  store_device_signature, set_firmware_hash, query_hash, firmware_update_imminent,
  show_external_framebuffer, write_framebuffer, read_framebuffer, read_display,
  set_display_intensity, not_applicable, not_yet_implemented, unknown, malformed,
}
use oxinode.Rnode.Eeprom.{StoredConfig, stored_config}
use oxinode.Rnode.Protocol.{
  Protocol, Action, Outcome, reconfigure, standby, nothing, persist, transmit, restart, redraw,
  report_display, handle, set_config, set_state, switched_on, radio_is_on, is_tnc, received,
  transmitted,
}
use oxinode.Rnode.Protocol.Panel.{
  PanelChange, change, landed, switched, switch_on, reprogram, store_if, set_from_panel,
  toggle_from_panel, save_from_panel, reset_from_panel, resumed, resume_from, with_stored,
  resume_stored_config, forget_bonds, toggle_alert, pair_phone,
}
use oxinode.Rnode.Protocol.Radio.{
  Event, after, host_sends, panel_sets, panel_toggles, panel_saves, panel_resets, panel_forgets,
  panel_alerts, phone_pairs, board_starts, radio_hears, radio_sent,
}

-- Under the lock the configuration is kept, and the store is kept if it is not to be written.
abbrev Kept : Protocol → Outcome → Type 0
Kept p o =
    (p.locked ≡ true → o.device.config ≡ p.config)
    × ((o.action ≡ persist) ⊎ (o.device.store ≡ p.store))

set_config-lem :
    (f : RadioConfig → RadioConfig) (p : Protocol)
    → (p.locked ≡ true → (set_config f p).config ≡ p.config) × ((set_config f p).store ≡ p.store)
unfolding set_config
set_config-lem f p = (λ h. ground arith, ground arith)

set_config-Kept :
    (f : RadioConfig → RadioConfig) (p : Protocol)
    → (p.locked ≡ true → (set_config f p).config ≡ p.config)
      × ((nothing ≡ persist) ⊎ ((set_config f p).store ≡ p.store))
set_config-Kept f p = let (kept, stored) = set_config-lem f p in (kept, inr stored)

switched_on-Kept : (e : Option ConfigError) (p : Protocol) → Kept p (switched_on e p)
unfolding switched_on
switched_on-Kept none p = (λ h. refl, inr refl)
switched_on-Kept (some e) p = (λ h. refl, inr refl)

set_state-Kept : (s : RadioState) (p : Protocol) → Kept p (set_state s p)
unfolding set_state
set_state-Kept on p = switched_on-Kept (validate p.config) p
set_state-Kept off p = (λ h. refl, inr refl)
set_state-Kept ask p = (λ h. refl, inr refl)

handle-Kept : (c : Command) (p : Protocol) → Kept p (handle c p)
unfolding handle
handle-Kept (data_packet payload) p = (λ h. refl, inr refl)
handle-Kept (set_frequency hz) p = set_config-Kept (λ c. record c { frequency_hz = hz }) p
handle-Kept (set_bandwidth hz) p = set_config-Kept (λ c. record c { bandwidth_hz = hz }) p
handle-Kept (set_tx_power dbm) p = set_config-Kept (λ c. record c { tx_power_dbm = dbm }) p
handle-Kept (set_spreading_factor sf) p =
    set_config-Kept (λ c. record c { spreading_factor = sf }) p
handle-Kept (set_coding_rate cr) p = set_config-Kept (λ c. record c { coding_rate = cr }) p
handle-Kept (set_radio_state s) p = set_state-Kept s p
handle-Kept leave p = (λ h. refl, inr refl)
handle-Kept (set_radio_lock lock) p = (λ h. refl, inr refl)
handle-Kept (set_short_airtime_limit v) p = (λ h. refl, inr refl)
handle-Kept (set_long_airtime_limit v) p = (λ h. refl, inr refl)
handle-Kept detect p = (λ h. refl, inr refl)
handle-Kept query_firmware_version p = (λ h. refl, inr refl)
handle-Kept query_platform p = (λ h. refl, inr refl)
handle-Kept query_mcu p = (λ h. refl, inr refl)
handle-Kept query_board p = (λ h. refl, inr refl)
handle-Kept read_rom p = (λ h. refl, inr refl)
handle-Kept (write_rom addr value) p = (λ h. refl, inl refl)
handle-Kept wipe_rom p = (λ h. refl, inl refl)
handle-Kept save_config p = (λ h. refl, inl refl)
handle-Kept delete_config p = (λ h. refl, inl refl)
handle-Kept reset p = (λ h. refl, inr refl)
handle-Kept query_device_hash p = (λ h. refl, inr refl)
handle-Kept (store_device_signature sig) p = (λ h. refl, inl refl)
handle-Kept (set_firmware_hash hash) p = (λ h. refl, inl refl)
handle-Kept (query_hash kind) p = (λ h. refl, inr refl)
handle-Kept firmware_update_imminent p = (λ h. refl, inr refl)
handle-Kept (show_external_framebuffer shown) p = (λ h. refl, inr refl)
handle-Kept (write_framebuffer line bytes) p = (λ h. refl, inr refl)
handle-Kept read_framebuffer p = (λ h. refl, inr refl)
handle-Kept read_display p = (λ h. refl, inr refl)
handle-Kept (set_display_intensity level) p = (λ h. refl, inr refl)
handle-Kept (not_applicable c) p = (λ h. refl, inr refl)
handle-Kept (not_yet_implemented c) p = (λ h. refl, inr refl)
handle-Kept (unknown c) p = (λ h. refl, inr refl)
handle-Kept (malformed c) p = (λ h. refl, inr refl)

set_locked : (s : Setting) (p : Protocol) → p.locked ≡ true → (set_from_panel s p).device ≡ p
unfolding set_from_panel
set_locked s p h =
    let edited : Protocol = record p { config = apply s p.config } in
    ap (λ b. (if b then change p nothing false else landed edited).device) h

-- Under the lock no command of a host and no setting of the panel changes the configuration.
pub locked-config :
    (p : Protocol)
    → p.locked ≡ true
    → ((c : Command) → (handle c p).device.config ≡ p.config)
      × ((s : Setting) → (set_from_panel s p).device.config ≡ p.config)
locked-config p h = (λ c. (handle-Kept c p).0 h, λ s. ap (λ q. q.config) (set_locked s p h))

switched-store : (e : Option ConfigError) (p : Protocol) → (switched e p).0.store ≡ p.store
unfolding switched
switched-store none p = refl
switched-store (some e) p = refl

resumed-store : (e : Option ConfigError) (p : Protocol) → (resumed e p).0.store ≡ p.store
unfolding resumed
resumed-store none p = refl
resumed-store (some e) p = refl

resume_from-store : (s : Option StoredConfig) (p : Protocol) → (resume_from s p).0.store ≡ p.store
unfolding resume_from
resume_from-store none p = refl
resume_from-store (some s) p =
    resumed-store (validate (with_stored s p.config)) (record p { config = with_stored s p.config })

reprogram-store : (p : Protocol) → (reprogram p).0.store ≡ p.store
unfolding reprogram switch_on
reprogram-store p =
    let Goal : Bool → Type 0 =
      λ b. (if b then switched (validate p.config) p else (p, nothing)).0.store ≡ p.store in
    elim (Bool-cases (radio_is_on p)) [
      | inl is_on ↦ subst Goal (sym is_on) (switched-store (validate p.config) p)
      | inr is_off ↦ subst Goal (sym is_off) refl
    ]

store_if-store : (b : Bool) (p : Protocol) → b ≡ false → (store_if b p).store ≡ p.store
unfolding store_if
store_if-store false p h = refl
store_if-store true p h = cc

landed-store : (p : Protocol) → (landed p).persist ≡ false → (landed p).device.store ≡ p.store
unfolding landed
landed-store p h = reprogram-store (store_if (is_tnc p) p) ∙ store_if-store (is_tnc p) p h

set-store :
    (s : Setting) (p : Protocol)
    → (set_from_panel s p).persist ≡ false
    → (set_from_panel s p).device.store ≡ p.store
unfolding set_from_panel
set-store s p =
    let edited : Protocol = record p { config = apply s p.config } in
    let Goal : Bool → Type 0 = λ b.
      let r : PanelChange = if b then change p nothing false else landed edited in
      r.persist ≡ false → r.device.store ≡ p.store in
    elim (Bool-cases p.locked) [
      | inl held ↦ subst Goal (sym held) (λ h. refl)
      | inr free ↦ subst Goal (sym free) (landed-store edited)
    ]

toggle-store : (p : Protocol) → (toggle_from_panel p).0.store ≡ p.store
unfolding toggle_from_panel switch_on
toggle-store p =
    let Goal : Bool → Type 0 = λ b.
      (if b then (record p { state = off }, standby) else switched (validate p.config) p).0.store
      ≡ p.store in
    elim (Bool-cases (radio_is_on p)) [
      | inl is_on ↦ subst Goal (sym is_on) refl
      | inr is_off ↦ subst Goal (sym is_off) (switched-store (validate p.config) p)
    ]

resume-store : (p : Protocol) → (resume_stored_config p).0.store ≡ p.store
unfolding resume_stored_config
resume-store p = resume_from-store (stored_config p.store.rom) p

reset-store : (p : Protocol) → (reset_from_panel p).0.store ≡ p.store
unfolding reset_from_panel
reset-store p =
    let q : Protocol = record p { config = default_config } in
    let Goal : Bool → Type 0 =
      λ b. (if b then resume_stored_config p else reprogram q).0.store ≡ p.store in
    elim (Bool-cases (is_tnc p)) [
      | inl tnc ↦ subst Goal (sym tnc) (resume-store p)
      | inr other ↦ subst Goal (sym other) (reprogram-store q)
    ]

abbrev is_persist : Action → Bool
is_persist persist = true
is_persist nothing = false
is_persist reconfigure = false
is_persist standby = false
is_persist (transmit payload) = false
is_persist restart = false
is_persist redraw = false
is_persist report_display = false

-- Whether the firmware is told to write the store to flash.
unfoldable pub must_save : Event → Protocol → Bool
unfolding handle set_from_panel save_from_panel forget_bonds toggle_alert pair_phone
must_save (host_sends c) p = is_persist (handle c p).action
must_save (panel_sets s) p = (set_from_panel s p).persist
must_save panel_saves p = (save_from_panel p).persist
must_save panel_toggles p = false
must_save panel_resets p = false
must_save panel_forgets p = (forget_bonds p).persist
must_save panel_alerts p = (toggle_alert p).persist
must_save (phone_pairs bond) p = (pair_phone bond p).1
must_save board_starts p = false
must_save (radio_hears rssi snr payload) p = false
must_save radio_sent p = false

host-store :
    (o : Outcome) (p : Protocol)
    → (o.action ≡ persist) ⊎ (o.device.store ≡ p.store)
    → is_persist o.action ≡ false
    → o.device.store ≡ p.store
host-store o p (inl e) h = let bad : true ≡ false = sym (ap is_persist e) ∙ h in cc
host-store o p (inr e) h = e

-- An event changes the store only if the firmware is told to write it.
pub after-saved : (e : Event) (p : Protocol) → must_save e p ≡ false → (after e p).0.store ≡ p.store
unfolding after must_save received transmitted save_from_panel forget_bonds toggle_alert pair_phone
after-saved (host_sends c) p h = host-store (handle c p) p (handle-Kept c p).1 h
after-saved (panel_sets s) p h = set-store s p h
after-saved panel_toggles p h = toggle-store p
after-saved panel_saves p h = cc
after-saved panel_resets p h = reset-store p
after-saved panel_forgets p h = cc
after-saved panel_alerts p h = cc
after-saved (phone_pairs bond) p h = cc
after-saved board_starts p h = resume-store p
after-saved (radio_hears rssi snr payload) p h = refl
after-saved radio_sent p h = refl
