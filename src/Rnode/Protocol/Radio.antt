-- ===== src/Rnode/Protocol/Radio.antt =====
-- What may happen to the radio: it is programmed only with a configuration that passes, it transmits
-- only if it is on, and it comes on in no other way.
use oxinode.Prelude.{
  Bool, true, false, Option, none, some, Bytes, if◌then◌else◌, ◌≡◌, ◌⊎◌, inl, inr, refl, sym, subst,
  ◌∙◌, Bool-cases, arith,
}
use oxinode.Prelude.Int.{ℤ}
use oxinode.Lr1121.Config.{RadioConfig, ConfigError}
use oxinode.Lr1121.Config.Setting.{Setting, validate, apply, default_config}
use oxinode.Rnode.Command.{
  Command, RadioState, on, off, ask, data_packet, set_frequency, set_bandwidth, set_tx_power,
  set_spreading_factor, set_coding_rate, set_radio_state, set_radio_lock, set_short_airtime_limit,
  set_long_airtime_limit, detect, leave, query_firmware_version, query_platform, query_mcu,
  query_board, read_rom, write_rom, wipe_rom, save_config, delete_config, reset, query_device_hash,
  store_device_signature, set_firmware_hash, query_hash, firmware_update_imminent,
  show_external_framebuffer, write_framebuffer, read_framebuffer, read_display,
  set_display_intensity, not_applicable, not_yet_implemented, unknown, malformed,
}
use oxinode.Rnode.Eeprom.{StoredConfig, stored_config}
use oxinode.Rnode.Store.{Bond}
use oxinode.Rnode.Protocol.{
  Protocol, Action, nothing, reconfigure, standby, transmit, persist, restart, redraw,
  report_display, handle, set_config, set_state, switched_on, radio_is_on, received, transmitted,
  is_tnc,
}
use oxinode.Rnode.Protocol.Panel.{
  PanelChange, change, landed, switched, switch_on, reprogram, store_if, set_from_panel,
  toggle_from_panel, save_from_panel, reset_from_panel, resumed, resume_from, with_stored,
  resume_stored_config, forget_bonds, toggle_alert, pair_phone,
}

-- All that happens to the device.
pub data Event : Type 0 where
  host_sends : Command → Event
  panel_sets : Setting → Event
  panel_toggles panel_saves panel_resets panel_forgets panel_alerts : Event
  phone_pairs : Bond → Event
  board_starts : Event
  radio_hears : ℤ → ℤ → Bytes → Event
  radio_sent : Event

unfoldable pub after : Event → Protocol → Protocol × Action
unfolding handle set_from_panel toggle_from_panel save_from_panel reset_from_panel
    resume_stored_config received transmitted forget_bonds toggle_alert pair_phone
after (host_sends c) p = ((handle c p).device, (handle c p).action)
after (panel_sets s) p = ((set_from_panel s p).device, (set_from_panel s p).radio)
after panel_toggles p = toggle_from_panel p
after panel_saves p = ((save_from_panel p).device, (save_from_panel p).radio)
after panel_resets p = reset_from_panel p
after panel_forgets p = ((forget_bonds p).device, (forget_bonds p).radio)
after panel_alerts p = ((toggle_alert p).device, (toggle_alert p).radio)
after (phone_pairs bond) p = ((pair_phone bond p).0, nothing)
after board_starts p = resume_stored_config p
after (radio_hears rssi snr payload) p = ((received rssi snr payload p).0, nothing)
after radio_sent p = ((transmitted p).0, nothing)

-- The radio does not come on.
abbrev Still : Protocol → Protocol → Type 0
Still p q = (q.state ≡ p.state) ⊎ (q.state ≡ off)

-- What an action takes for granted of the device before and after.
abbrev pub Permits : Protocol → Protocol × Action → Type 0
Permits p (q, reconfigure) = (validate q.config ≡ none) × (q.state ≡ on)
Permits p (q, transmit payload) = (p.state ≡ on) × (q ≡ p)
Permits p (q, standby) = q.state ≡ off
Permits p (q, nothing) = Still p q
Permits p (q, persist) = Still p q
Permits p (q, restart) = Still p q
Permits p (q, redraw) = Still p q
Permits p (q, report_display) = Still p q

set_config-state :
    (change : RadioConfig → RadioConfig) (p : Protocol) → (set_config change p).state ≡ p.state
unfolding set_config
set_config-state change p = ground arith

switched-Permits :
    (e : Option ConfigError) (p q : Protocol) → validate q.config ≡ e → Permits p (switched e q)
unfolding switched
switched-Permits none p q h = (h, refl)
switched-Permits (some e) p q h = refl

switched_on-Permits :
    (e : Option ConfigError) (p : Protocol)
    → validate p.config ≡ e
    → Permits p ((switched_on e p).device, (switched_on e p).action)
unfolding switched_on
switched_on-Permits none p h = (h, refl)
switched_on-Permits (some e) p h = refl

resumed-Permits :
    (e : Option ConfigError) (p q : Protocol) → validate q.config ≡ e → Permits p (resumed e q)
unfolding resumed
resumed-Permits none p q h = (h, refl)
resumed-Permits (some e) p q h = inr refl

reprogram-Permits : (p q : Protocol) → q.state ≡ p.state → Permits p (reprogram q)
unfolding reprogram switch_on
reprogram-Permits p q h = elim (Bool-cases (radio_is_on q)) [
  | inl is_on ↦ rw is_on (switched-Permits (validate q.config) p q refl)
  | inr is_off ↦ rw is_off (inl h)
]

resume_from-Permits : (s : Option StoredConfig) (p : Protocol) → Permits p (resume_from s p)
unfolding resume_from
resume_from-Permits none p = inl refl
resume_from-Permits (some s) p =
    let config = with_stored s p.config in
    resumed-Permits (validate config) p (record p { config = config }) refl

resume-Permits : (p : Protocol) → Permits p (resume_stored_config p)
unfolding resume_stored_config
resume-Permits p = resume_from-Permits (stored_config p.store.rom) p

set_state-Permits :
    (s : RadioState) (p : Protocol) → Permits p ((set_state s p).device, (set_state s p).action)
unfolding set_state
set_state-Permits on p = switched_on-Permits (validate p.config) p refl
set_state-Permits off p = refl
set_state-Permits ask p = inl refl

on_lem : (s : RadioState) → (elim s [ off ↦ false | on ↦ true | ask ↦ false ]) ≡ true → s ≡ on
on_lem on h = refl
on_lem off h = cc
on_lem ask h = cc

radio_is_on-state : (p : Protocol) → radio_is_on p ≡ true → p.state ≡ on
unfolding radio_is_on
radio_is_on-state p h = on_lem p.state h

data_packet-Permits :
    (payload : Bytes) (p : Protocol)
    → Permits p (p, if radio_is_on p then transmit payload else nothing)
data_packet-Permits payload p = elim (Bool-cases (radio_is_on p)) [
  | inl is_on ↦ rw is_on (radio_is_on-state p is_on, refl)
  | inr is_off ↦ rw is_off (inl refl)
]

handle-Permits : (c : Command) (p : Protocol) → Permits p ((handle c p).device, (handle c p).action)
unfolding handle
handle-Permits (data_packet payload) p = data_packet-Permits payload p
handle-Permits (set_frequency hz) p = inl (set_config-state (λ c. record c { frequency_hz = hz }) p)
handle-Permits (set_bandwidth hz) p = inl (set_config-state (λ c. record c { bandwidth_hz = hz }) p)
handle-Permits (set_tx_power dbm) p =
    inl (set_config-state (λ c. record c { tx_power_dbm = dbm }) p)
handle-Permits (set_spreading_factor sf) p =
    inl (set_config-state (λ c. record c { spreading_factor = sf }) p)
handle-Permits (set_coding_rate cr) p =
    inl (set_config-state (λ c. record c { coding_rate = cr }) p)
handle-Permits (set_radio_state s) p = set_state-Permits s p
handle-Permits leave p = refl
handle-Permits (set_radio_lock lock) p = inl refl
handle-Permits (set_short_airtime_limit v) p = inl refl
handle-Permits (set_long_airtime_limit v) p = inl refl
handle-Permits detect p = inl refl
handle-Permits query_firmware_version p = inl refl
handle-Permits query_platform p = inl refl
handle-Permits query_mcu p = inl refl
handle-Permits query_board p = inl refl
handle-Permits read_rom p = inl refl
handle-Permits (write_rom addr value) p = inl refl
handle-Permits wipe_rom p = inl refl
handle-Permits save_config p = inl refl
handle-Permits delete_config p = inl refl
handle-Permits reset p = inl refl
handle-Permits query_device_hash p = inl refl
handle-Permits (store_device_signature sig) p = inl refl
handle-Permits (set_firmware_hash hash) p = inl refl
handle-Permits (query_hash kind) p = inl refl
handle-Permits firmware_update_imminent p = inl refl
handle-Permits (show_external_framebuffer shown) p = inl refl
handle-Permits (write_framebuffer line bytes) p = inl refl
handle-Permits read_framebuffer p = inl refl
handle-Permits read_display p = inl refl
handle-Permits (set_display_intensity level) p = inl refl
handle-Permits (not_applicable c) p = inl refl
handle-Permits (not_yet_implemented c) p = inl refl
handle-Permits (unknown c) p = inl refl
handle-Permits (malformed c) p = inl refl

store_if-state : (b : Bool) (p : Protocol) → (store_if b p).state ≡ p.state
unfolding store_if
store_if-state true p = refl
store_if-state false p = refl

landed-Permits :
    (p q : Protocol) → q.state ≡ p.state → Permits p ((landed q).device, (landed q).radio)
unfolding landed
landed-Permits p q h = reprogram-Permits p (store_if (is_tnc q) q) (store_if-state (is_tnc q) q ∙ h)

set_from_panel-Permits :
    (s : Setting) (p : Protocol)
    → Permits p ((set_from_panel s p).device, (set_from_panel s p).radio)
unfolding set_from_panel
set_from_panel-Permits s p =
    let edited : Protocol = record p { config = apply s p.config } in
    let Goal : Bool → Type 0 = λ b.
      let r : PanelChange = if b then change p nothing false else landed edited in
      Permits p (r.device, r.radio) in
    elim (Bool-cases p.locked) [
      | inl held ↦ subst Goal (sym held) (inl refl)
      | inr free ↦ subst Goal (sym free) (landed-Permits p edited refl)
    ]

toggle-Permits : (p : Protocol) → Permits p (toggle_from_panel p)
unfolding toggle_from_panel switch_on
toggle-Permits p = elim (Bool-cases (radio_is_on p)) [
  | inl is_on ↦ rw is_on refl
  | inr is_off ↦ rw is_off (switched-Permits (validate p.config) p p refl)
]

reset-Permits : (p : Protocol) → Permits p (reset_from_panel p)
unfolding reset_from_panel
reset-Permits p = elim (Bool-cases (is_tnc p)) [
  | inl tnc ↦ rw tnc (resume-Permits p)
  | inr not_tnc ↦ rw not_tnc (reprogram-Permits p (record p { config = default_config }) refl)
]

-- Whatever happens: a `reconfigure` comes with a configuration that passes the check for both bands,
-- and with the radio on; a packet is transmitted only by a radio that was on, and changes nothing of
-- the device; a `standby` leaves the radio off; and with any other action, or none, the radio has
-- not come on.
pub after-Permits : (e : Event) (p : Protocol) → Permits p (after e p)
unfolding after save_from_panel received transmitted forget_bonds toggle_alert pair_phone
after-Permits (host_sends c) p = handle-Permits c p
after-Permits (panel_sets s) p = set_from_panel-Permits s p
after-Permits panel_toggles p = toggle-Permits p
after-Permits panel_saves p = inl refl
after-Permits panel_resets p = reset-Permits p
after-Permits panel_forgets p = inl refl
after-Permits panel_alerts p = inl refl
after-Permits (phone_pairs bond) p = inl refl
after-Permits board_starts p = resume-Permits p
after-Permits (radio_hears rssi snr payload) p = inl refl
after-Permits radio_sent p = inl refl
