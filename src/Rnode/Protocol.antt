-- ===== src/Rnode/Protocol.antt =====
-- core/src/rnode/protocol.rs: what a command, a key of the panel or a packet does to the device, what
-- the host is answered, and what the firmware has to do then.
pub mod Panel
pub mod Radio
pub mod Lock
pub mod Persist
pub mod Storage
pub mod Answers
pub mod Provisioning
mod Tests
use oxinode.Prelude.{
  ℕ, ◌+◌, ◌%◌, ◌^◌, min, Bool, true, false, not, List, [], ◌∷◌, ◌++◌, Option, none, some, Bytes,
  if◌then◌else◌, ◌==◌, ltb,
}
use oxinode.Prelude.Int.{ℤ, pos, ◌+ℤ◌, ltb_ℤ, to_bits, pos_part, wrap}
use oxinode.Hash.{be_bytes}
use oxinode.Lr1121.Config.{RadioConfig, ConfigError}
use oxinode.Lr1121.Config.Setting.{default_config, validate}
use oxinode.Rnode.Kiss.{fend}
use oxinode.Rnode.Command.{
  Command, RadioState, on, off, ask, encode_state, data_packet, set_frequency, set_bandwidth,
  set_tx_power, set_spreading_factor, set_coding_rate, set_radio_state, set_radio_lock,
  set_short_airtime_limit, set_long_airtime_limit, detect, leave, query_firmware_version,
  query_platform, query_mcu, query_board, read_rom, write_rom, wipe_rom, save_config, delete_config,
  reset, query_device_hash, store_device_signature, set_firmware_hash, query_hash,
  firmware_update_imminent, show_external_framebuffer, write_framebuffer, read_framebuffer,
  read_display, set_display_intensity, not_applicable, not_yet_implemented, unknown, malformed,
}
use oxinode.Rnode.Command.Cmd
use oxinode.Rnode.Display
use oxinode.Rnode.Display.{External}
use oxinode.Rnode.Eeprom
use oxinode.Rnode.Eeprom.{Eeprom, StoredConfig}
use oxinode.Rnode.Store.Record
use oxinode.Rnode.Store.Record.{DeviceStore}

-- `Action`, which `None` starts as `nothing`.
pub data Action : Type 0 where
  nothing reconfigure standby : Action
  transmit : Bytes → Action
  persist restart redraw report_display : Action

pub record Protocol : Type 0 where
  pub config : RadioConfig
  pub state : RadioState
  pub locked : Bool
  pub short_airtime_limit : ℕ
  pub long_airtime_limit : ℕ
  pub detected : Bool
  pub rx_count : ℕ
  pub tx_count : ℕ
  pub last_error : Option ConfigError
  pub store : DeviceStore
  pub mcu_id : ℕ
  pub external : External
  pub display_intensity : ℕ

-- A frame that is handed to the sink: a command byte and its payload.
abbrev pub Frame : Type 0
Frame = ℕ × Bytes

-- The device afterwards, the frames in their order, and what is to be done.
pub record Outcome : Type 0 where
  pub device : Protocol
  pub frames : List Frame
  pub action : Action

unfoldable pub new : Protocol
unfolding Record.new Display.new
new = record {
  config = default_config;
  state = off;
  locked = false;
  short_airtime_limit = 0;
  long_airtime_limit = 0;
  detected = false;
  rx_count = 0;
  tx_count = 0;
  last_error = none;
  store = Record.new;
  mcu_id = 0;
  external = Display.new;
  display_intensity = 0x80;
}

unfoldable pub with_storage : DeviceStore → ℕ → Protocol
unfolding new
with_storage store mcu_id = record new { store = store; mcu_id = mcu_id }

unfoldable pub radio_is_on : Protocol → Bool
radio_is_on p = elim p.state [ off ↦ false | on ↦ true | ask ↦ false ]

abbrev pub is_some {ℓ} : {A : Type ℓ} → Option A → Bool
is_some none = false
is_some (some a) = true

unfoldable pub is_tnc : Protocol → Bool
unfolding Eeprom.stored_config
is_tnc p = is_some (Eeprom.stored_config p.store.rom)

unfoldable pub valid_config : Protocol → Option RadioConfig
unfolding validate
valid_config p = elim (validate p.config) [ none ↦ some p.config | some e ↦ none ]

unfoldable pub report_frequency : Protocol → List Frame
unfolding be_bytes
report_frequency p = (Cmd.frequency, be_bytes 4 p.config.frequency_hz) ∷ []

unfoldable pub report_bandwidth : Protocol → List Frame
unfolding be_bytes
report_bandwidth p = (Cmd.bandwidth, be_bytes 4 p.config.bandwidth_hz) ∷ []

unfoldable pub report_tx_power : Protocol → List Frame
report_tx_power p = (Cmd.txpower, to_bits 8 p.config.tx_power_dbm ∷ []) ∷ []

unfoldable pub report_spreading_factor : Protocol → List Frame
report_spreading_factor p = (Cmd.sf, p.config.spreading_factor ∷ []) ∷ []

unfoldable pub report_coding_rate : Protocol → List Frame
report_coding_rate p = (Cmd.cr, p.config.coding_rate ∷ []) ∷ []

abbrev state_frames : Option ℕ → List Frame
state_frames none = []
state_frames (some byte) = (Cmd.radio_state, byte ∷ []) ∷ []

unfoldable pub report_state : Protocol → List Frame
unfolding encode_state
report_state p = state_frames (encode_state p.state)

unfoldable pub report_counters : Protocol → List Frame
unfolding be_bytes
report_counters p = (Cmd.stat_rx, be_bytes 4 p.rx_count) ∷ (Cmd.stat_tx, be_bytes 4 p.tx_count) ∷ []

abbrev hash_frames : Option Bytes → List Frame
hash_frames none = []
hash_frames (some hash) = (Cmd.hashes, 1 ∷ hash) ∷ []

-- Kind 1 is the target firmware's.
unfoldable pub report_hash : ℕ → Protocol → List Frame
report_hash kind p = if not (kind == 1) then [] else hash_frames p.store.target_firmware_hash

unfoldable pub report_error : ℕ → List Frame
report_error code = (Cmd.error, code ∷ []) ∷ []

unfoldable pub report_all : Protocol → List Frame
unfolding report_frequency report_bandwidth report_tx_power report_spreading_factor
    report_coding_rate report_state
report_all p =
    let last = report_coding_rate p ++ report_state p in
    report_frequency p
    ++ (report_bandwidth p ++ (report_tx_power p ++ (report_spreading_factor p ++ last)))

-- An answer, or none, with what is to be done.
abbrev pub reply : Protocol → List Frame → Action → Outcome
reply p frames action = record { device = p; frames = frames; action = action }

-- `set`.
unfoldable pub set_config : (RadioConfig → RadioConfig) → Protocol → Protocol
set_config change p = if not p.locked then record p { config = change p.config } else p

abbrev with_rom : Eeprom → Protocol → Protocol
with_rom rom p = record p { store = record p.store { rom = rom } }

-- The arms of `SetRadioState(On)`, for what `ValidConfig::new` said.
unfoldable pub switched_on : Option ConfigError → Protocol → Outcome
unfolding report_state
switched_on none p =
    let device : Protocol = record p { last_error = none; state = on } in
    reply device (report_state device) reconfigure
switched_on (some e) p =
    let device : Protocol = record p { last_error = some e; state = off } in
    reply device (report_state device) standby

unfoldable pub set_state : RadioState → Protocol → Outcome
unfolding report_state validate switched_on
set_state ask p = reply p (report_state p) nothing
set_state off p =
    let device : Protocol = record p { state = off } in reply device (report_state device) standby
set_state on p = switched_on (validate p.config) p

abbrev pub device_hash_frames : Bool → Bytes → List Frame
device_hash_frames false hash = []
device_hash_frames true hash = (Cmd.dev_hash, hash) ∷ []

-- `handle`. A signature and a hash have their 64 and 32 bytes, as `decode` makes them.
unfoldable pub handle : Command → Protocol → Outcome
unfolding radio_is_on report_frequency report_bandwidth report_tx_power report_spreading_factor
    report_coding_rate report_hash set_config set_state Eeprom.write Eeprom.save_config
    Eeprom.delete_config Eeprom.is_provisioned Eeprom.device_hash Record.wipe Display.set_enabled
    Display.write_line be_bytes
handle detect p = reply (record p { detected = true }) ((Cmd.detect, 0x46 ∷ []) ∷ []) nothing
handle query_firmware_version p = reply p ((Cmd.fw_version, 1 ∷ 52 ∷ []) ∷ []) nothing
handle query_platform p = reply p ((Cmd.platform, 0x70 ∷ []) ∷ []) nothing
handle query_mcu p = reply p ((Cmd.mcu, 0x71 ∷ []) ∷ []) nothing
handle query_board p = reply p ((Cmd.board, 0x32 ∷ []) ∷ []) nothing
handle read_rom p = reply p ((Cmd.rom_read, p.store.rom.bytes) ∷ []) nothing
handle (write_rom addr value) p =
    reply (with_rom (Eeprom.write addr value p.store.rom) p) [] persist
handle wipe_rom p = reply (record p { store = Record.wipe p.store }) [] persist
handle save_config p = reply (with_rom (Eeprom.save_config p.config p.store.rom) p) [] persist
handle delete_config p = reply (with_rom (Eeprom.delete_config p.store.rom) p) [] persist
handle reset p = reply p [] restart
handle query_device_hash p =
    reply p
      (device_hash_frames (Eeprom.is_provisioned p.store.rom)
        (Eeprom.device_hash p.store.rom p.mcu_id))
      nothing
handle (store_device_signature sig) p =
    reply (record p { store = record p.store { device_signature = some sig } }) [] persist
handle (set_firmware_hash hash) p =
    reply (record p { store = record p.store { target_firmware_hash = some hash } }) [] persist
handle (query_hash kind) p = reply p (report_hash kind p) nothing
handle firmware_update_imminent p = reply p [] nothing
handle (show_external_framebuffer shown) p =
    reply (record p { external = Display.set_enabled shown p.external }) [] redraw
handle (write_framebuffer line bytes) p =
    reply (record p { external = (Display.write_line line bytes p.external).0 }) [] nothing
handle read_framebuffer p = reply p ((Cmd.fb_read, p.external.buf) ∷ []) nothing
handle read_display p = reply p [] report_display
handle (set_display_intensity level) p = reply (record p { display_intensity = level }) [] redraw
handle (set_frequency hz) p =
    let device = set_config (λ c. record c { frequency_hz = hz }) p in
    reply device (report_frequency device) nothing
handle (set_bandwidth hz) p =
    let device = set_config (λ c. record c { bandwidth_hz = hz }) p in
    reply device (report_bandwidth device) nothing
handle (set_tx_power dbm) p =
    let device = set_config (λ c. record c { tx_power_dbm = dbm }) p in
    reply device (report_tx_power device) nothing
handle (set_spreading_factor sf) p =
    let device = set_config (λ c. record c { spreading_factor = sf }) p in
    reply device (report_spreading_factor device) nothing
handle (set_coding_rate cr) p =
    let device = set_config (λ c. record c { coding_rate = cr }) p in
    reply device (report_coding_rate device) nothing
handle (set_radio_lock lock) p =
    reply (record p { locked = lock }) ((Cmd.radio_lock, (if lock then 1 else 0) ∷ []) ∷ []) nothing
handle (set_short_airtime_limit v) p =
    reply (record p { short_airtime_limit = v }) ((Cmd.st_alock, be_bytes 2 v) ∷ []) nothing
handle (set_long_airtime_limit v) p =
    reply (record p { long_airtime_limit = v }) ((Cmd.lt_alock, be_bytes 2 v) ∷ []) nothing
handle (set_radio_state s) p = set_state s p
handle leave p = reply (record p { state = off }) [] standby
handle (data_packet payload) p = reply p [] (if radio_is_on p then transmit payload else nothing)
handle (not_yet_implemented c) p = reply p [] nothing
handle (not_applicable c) p = reply p [] nothing
handle (unknown c) p = reply p [] nothing
handle (malformed c) p = reply p [] nothing

-- `encode_rssi`: the sum is an `i16`, which wraps.
unfoldable pub encode_rssi : ℤ → ℕ
unfolding ◌+ℤ◌ wrap
encode_rssi dbm =
    let v = wrap 16 (dbm +ℤ pos 157) in
    if ltb_ℤ v (pos 0) then 0 else if ltb_ℤ (pos 255) v then 255 else pos_part v

unfoldable pub encode_snr : ℤ → ℕ
encode_snr quarter_db =
    let byte = to_bits 8 quarter_db in if byte == fend then (byte + 1) % 256 else byte

unfoldable pub saturating_inc : ℕ → ℕ
saturating_inc n = min (n + 1) 0xFFFFFFFF

-- `received`: a packet that the radio heard.
unfoldable pub received : (rssi_dbm snr_quarter_db : ℤ) → Bytes → Protocol → Protocol × List Frame
unfolding saturating_inc encode_rssi encode_snr
received rssi_dbm snr_quarter_db payload p = (
  record p { rx_count = saturating_inc p.rx_count },
  (Cmd.stat_rssi, encode_rssi rssi_dbm ∷ [])
      ∷ (Cmd.stat_snr, encode_snr snr_quarter_db ∷ [])
      ∷ (Cmd.data_frame, payload)
      ∷ [],
)

unfoldable pub transmitted : Protocol → Protocol × List Frame
unfolding saturating_inc
transmitted p = (record p { tx_count = saturating_inc p.tx_count }, (Cmd.ready, []) ∷ [])
