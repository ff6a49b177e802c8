-- ===== src/Rnode/Command/Cmd.antt =====
-- core/src/rnode/command.rs, `mod cmd`: the command bytes.
use oxinode.Prelude.{ℕ}

abbrev pub data_frame : ℕ
data_frame = 0x00

abbrev pub frequency : ℕ
frequency = 0x01

abbrev pub bandwidth : ℕ
bandwidth = 0x02

abbrev pub txpower : ℕ
txpower = 0x03

abbrev pub sf : ℕ
sf = 0x04

abbrev pub cr : ℕ
cr = 0x05

abbrev pub radio_state : ℕ
radio_state = 0x06

abbrev pub radio_lock : ℕ
radio_lock = 0x07

abbrev pub detect : ℕ
detect = 0x08

abbrev pub leave : ℕ
leave = 0x0A

abbrev pub st_alock : ℕ
st_alock = 0x0B

abbrev pub lt_alock : ℕ
lt_alock = 0x0C

abbrev pub ready : ℕ
ready = 0x0F

abbrev pub stat_rx : ℕ
stat_rx = 0x21

abbrev pub stat_tx : ℕ
stat_tx = 0x22

abbrev pub stat_rssi : ℕ
stat_rssi = 0x23

abbrev pub stat_snr : ℕ
stat_snr = 0x24

abbrev pub stat_chtm : ℕ
stat_chtm = 0x25

abbrev pub stat_phyprm : ℕ
stat_phyprm = 0x26

abbrev pub stat_bat : ℕ
stat_bat = 0x27

abbrev pub blink : ℕ
blink = 0x30

abbrev pub disp_int : ℕ
disp_int = 0x45

abbrev pub random : ℕ
random = 0x40

abbrev pub fb_ext : ℕ
fb_ext = 0x41

abbrev pub fb_read : ℕ
fb_read = 0x42

abbrev pub fb_write : ℕ
fb_write = 0x43

abbrev pub bt_ctrl : ℕ
bt_ctrl = 0x46

abbrev pub board : ℕ
board = 0x47

abbrev pub platform : ℕ
platform = 0x48

abbrev pub mcu : ℕ
mcu = 0x49

abbrev pub fw_version : ℕ
fw_version = 0x50

abbrev pub rom_read : ℕ
rom_read = 0x51

abbrev pub rom_write : ℕ
rom_write = 0x52

abbrev pub conf_save : ℕ
conf_save = 0x53

abbrev pub conf_delete : ℕ
conf_delete = 0x54

abbrev pub reset : ℕ
reset = 0x55

abbrev pub dev_hash : ℕ
dev_hash = 0x56

abbrev pub dev_sig : ℕ
dev_sig = 0x57

abbrev pub fw_hash : ℕ
fw_hash = 0x58

abbrev pub rom_wipe : ℕ
rom_wipe = 0x59

abbrev pub hashes : ℕ
hashes = 0x60

abbrev pub fw_upd : ℕ
fw_upd = 0x61

abbrev pub bt_pin : ℕ
bt_pin = 0x62

abbrev pub disp_adr : ℕ
disp_adr = 0x63

abbrev pub disp_blnk : ℕ
disp_blnk = 0x64

abbrev pub disp_rot : ℕ
disp_rot = 0x67

abbrev pub disp_rcnd : ℕ
disp_rcnd = 0x68

abbrev pub disp_read : ℕ
disp_read = 0x66

abbrev pub np_int : ℕ
np_int = 0x65

abbrev pub dis_ia : ℕ
dis_ia = 0x69

abbrev pub wifi_mode : ℕ
wifi_mode = 0x6A

abbrev pub wifi_ssid : ℕ
wifi_ssid = 0x6B

abbrev pub wifi_psk : ℕ
wifi_psk = 0x6C

abbrev pub cfg_read : ℕ
cfg_read = 0x6D

abbrev pub wifi_chn : ℕ
wifi_chn = 0x6E

abbrev pub wifi_ip : ℕ
wifi_ip = 0x84

abbrev pub wifi_nm : ℕ
wifi_nm = 0x85

abbrev pub error : ℕ
error = 0x90
