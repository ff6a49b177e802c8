-- ===== src/Rnode/Command.antt =====
-- core/src/rnode/command.rs: the commands of a host, and the framing of a response.
pub mod Cmd
pub mod Decode
mod Tests
use oxinode.Prelude.{
  ℕ, ◌+◌, ◌*◌, Bool, true, false, not, ◌||◌, [], ◌∷◌, Option, none, some, if◌then◌else◌, ◌==◌, ltb,
  Bytes, length, take,
}
use oxinode.Prelude.Int.{ℤ, to_signed}
use oxinode.Rnode.Kiss.{encode, encoded_len}

unfoldable pub host_unescapes : ℕ → Bool
host_unescapes c =
    c == Cmd.data_frame
    || c == Cmd.frequency
    || c == Cmd.bandwidth
    || c == Cmd.fw_version
    || c == Cmd.stat_rx
    || c == Cmd.stat_tx
    || c == Cmd.st_alock
    || c == Cmd.lt_alock
    || c == Cmd.stat_chtm
    || c == Cmd.stat_phyprm
    || c == Cmd.stat_bat
    || c == Cmd.fb_read
    || c == Cmd.disp_read
    || c == Cmd.rom_read
    || c == Cmd.cfg_read
    || c == Cmd.dev_hash
    || c == Cmd.hashes
    || c == Cmd.bt_pin

unfoldable pub encode_response : ℕ → Bytes → Bytes → Option ℕ × Bytes
encode_response command payload out = encode command payload (host_unescapes command) out

unfoldable pub response_len : ℕ → Bytes → ℕ
response_len command payload = encoded_len payload (host_unescapes command)

pub data RadioState : Type 0 where
  off on ask : RadioState

unfoldable pub decode_state : ℕ → Option RadioState
decode_state byte =
    if byte == 0x00
    then some off
    else if byte == 0x01
    then some on
    else if byte == 0xFF
    then some ask
    else none

unfoldable pub encode_state : RadioState → Option ℕ
encode_state off = some 0x00
encode_state on = some 0x01
encode_state ask = none

pub data Command : Type 0 where
  data_packet : Bytes → Command
  set_frequency set_bandwidth : ℕ → Command
  set_tx_power : ℤ → Command
  set_spreading_factor set_coding_rate : ℕ → Command
  set_radio_state : RadioState → Command
  set_radio_lock : Bool → Command
  set_short_airtime_limit set_long_airtime_limit : ℕ → Command
  detect leave : Command
  query_firmware_version query_platform query_mcu query_board : Command
  read_rom : Command
  write_rom : ℕ → ℕ → Command
  wipe_rom save_config delete_config reset : Command
  query_device_hash : Command
  store_device_signature set_firmware_hash : Bytes → Command
  query_hash : ℕ → Command
  firmware_update_imminent : Command
  show_external_framebuffer : Bool → Command
  write_framebuffer : ℕ → Bytes → Command
  read_framebuffer read_display : Command
  set_display_intensity : ℕ → Command
  not_applicable not_yet_implemented unknown malformed : ℕ → Command

unfoldable pub be32 : Bytes → Option ℕ
be32 (a ∷ b ∷ c ∷ d ∷ _) = some (a * 0x1000000 + b * 0x10000 + c * 0x100 + d)
be32 _ = none

unfoldable pub be16 : Bytes → Option ℕ
be16 (a ∷ b ∷ _) = some (a * 0x100 + b)
be16 _ = none

-- `payload.get(..n)`.
unfoldable pub get_prefix : ℕ → Bytes → Option Bytes
get_prefix n payload = if ltb (length payload) n then none else some (take n payload)

-- A decoded field, or `Malformed`.
unfoldable pub field {ℓ} : {A : Type ℓ} → ℕ → Option A → (A → Command) → Command
field c none make = malformed c
field c (some a) make = make a

-- `payload.first()`.
unfoldable pub first : Bytes → Option ℕ
first [] = none
first (b ∷ _) = some b

abbrev pub detect_req : ℕ
detect_req = 0x73

abbrev pub confirm_byte : ℕ
confirm_byte = 0xF8

-- A command whose first payload byte has to be `guard`.
unfoldable pub guarded : ℕ → ℕ → Bytes → Command → Command
guarded c guard [] made = malformed c
guarded c guard (b ∷ _) made = if b == guard then made else malformed c

unfoldable pub decode_state_byte : Bytes → Option RadioState
unfolding decode_state
decode_state_byte [] = none
decode_state_byte (b ∷ _) = decode_state b

unfoldable pub decode_write_rom : Bytes → Command
decode_write_rom (a ∷ v ∷ _) = write_rom a v
decode_write_rom _ = malformed Cmd.rom_write

unfoldable pub decode_hashes : Bytes → Command
decode_hashes [] = malformed Cmd.hashes
decode_hashes (k ∷ _) = if k == 1 || k == 2 then query_hash k else malformed Cmd.hashes

-- `FB_BYTES_PER_LINE` is 8.
unfoldable pub decode_fb_write : Bytes → Command
decode_fb_write [] = malformed Cmd.fb_write
decode_fb_write (line ∷ bytes) =
    if ltb (length bytes) 8 then malformed Cmd.fb_write else write_framebuffer line (take 8 bytes)

-- The commands that carry nothing this firmware can act on.
unfoldable pub decode_other : ℕ → Command
decode_other c =
    if c == Cmd.disp_blnk || c == Cmd.disp_rot || c == Cmd.disp_rcnd || c == Cmd.blink
    then not_yet_implemented c
    else if c == Cmd.disp_adr
    then not_applicable c
    else if c == Cmd.bt_ctrl || c == Cmd.bt_pin
    then not_yet_implemented c
    else if c == Cmd.np_int
        || c == Cmd.wifi_mode
        || c == Cmd.wifi_ssid
        || c == Cmd.wifi_psk
        || c == Cmd.wifi_chn
        || c == Cmd.wifi_ip
        || c == Cmd.wifi_nm
        || c == Cmd.cfg_read
        || c == Cmd.dis_ia
    then not_applicable c
    else unknown c

-- The arms of `decode` for the display, and those behind them.
unfoldable pub decode_display : ℕ → Bytes → Command
unfolding field first decode_fb_write decode_other
decode_display c payload =
    if c == Cmd.fb_ext
    then field c (first payload) (λ b. show_external_framebuffer (not (b == 0)))
    else if c == Cmd.fb_write
    then decode_fb_write payload
    else if c == Cmd.fb_read
    then read_framebuffer
    else if c == Cmd.disp_read
    then read_display
    else if c == Cmd.disp_int
    then field c (first payload) set_display_intensity
    else decode_other c

-- The arms for the hashes and the queries, and those behind them.
unfoldable pub decode_identity : ℕ → Bytes → Command
unfolding field get_prefix decode_hashes decode_display
decode_identity c payload =
    if c == Cmd.dev_hash
    then query_device_hash
    else if c == Cmd.dev_sig
    then field c (get_prefix 64 payload) store_device_signature
    else if c == Cmd.fw_hash
    then field c (get_prefix 32 payload) set_firmware_hash
    else if c == Cmd.hashes
    then decode_hashes payload
    else if c == Cmd.fw_upd
    then firmware_update_imminent
    else if c == Cmd.fw_version
    then query_firmware_version
    else if c == Cmd.platform
    then query_platform
    else if c == Cmd.mcu
    then query_mcu
    else if c == Cmd.board
    then query_board
    else decode_display c payload

-- The arms from ROM_WIPE on.
unfoldable pub decode_rom : ℕ → Bytes → Command
unfolding guarded decode_write_rom decode_identity
decode_rom c payload =
    if c == Cmd.rom_wipe
    then guarded c confirm_byte payload wipe_rom
    else if c == Cmd.reset
    then guarded c confirm_byte payload reset
    else if c == Cmd.rom_read
    then read_rom
    else if c == Cmd.rom_write
    then decode_write_rom payload
    else if c == Cmd.conf_save
    then save_config
    else if c == Cmd.conf_delete
    then delete_config
    else decode_identity c payload

-- `decode`.
unfoldable pub decode : ℕ → Bytes → Command
unfolding field guarded first be16 be32 decode_state_byte decode_rom
decode c payload =
    if c == Cmd.data_frame
    then data_packet payload
    else if c == Cmd.frequency
    then field c (be32 payload) set_frequency
    else if c == Cmd.bandwidth
    then field c (be32 payload) set_bandwidth
    else if c == Cmd.txpower
    then field c (first payload) (λ b. set_tx_power (to_signed 8 b))
    else if c == Cmd.sf
    then field c (first payload) set_spreading_factor
    else if c == Cmd.cr
    then field c (first payload) set_coding_rate
    else if c == Cmd.radio_state
    then field c (decode_state_byte payload) set_radio_state
    else if c == Cmd.radio_lock
    then field c (first payload) (λ b. set_radio_lock (not (b == 0)))
    else if c == Cmd.st_alock
    then field c (be16 payload) set_short_airtime_limit
    else if c == Cmd.lt_alock
    then field c (be16 payload) set_long_airtime_limit
    else if c == Cmd.detect
    then guarded c detect_req payload detect
    else if c == Cmd.leave
    then leave
    else decode_rom c payload
