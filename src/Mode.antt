-- ===== src/Mode.antt =====
-- core/src/mode.rs: whether the board is a host's RNode or a node of its own.
pub mod Changes
mod Tests
use oxinode.Prelude.{
  ℕ, ◌-◌, Bool, true, false, not, ◌&&◌, ◌||◌, Option, none, some, if◌then◌else◌, leb,
}
use oxinode.Rnode.Transport.{Transport, usb, bluetooth}

abbrev pub hold_ms : ℕ
hold_ms = 3000

pub data Mode : Type 0 where
  rnode : Transport → Mode
  node idle : Mode

unfoldable pub is_node : Mode → Bool
is_node node = true
is_node _ = false

unfoldable pub has_host : Mode → Bool
has_host (rnode _) = true
has_host _ = false

pub record Seen : Type 0 where
  pub usb_bus : Bool
  pub usb_dtr : Bool
  pub usb_frame : Bool
  pub ble_link : Bool
  pub ble_frame : Bool

pub data Change : Type 0 where
  host_arrived : Transport → Change
  host_left : Change

pub record Side : Type 0 where
  pub present : Bool
  pub gone_since : Option ℕ

abbrev pub absent : Side
absent = record { present = false; gone_since = none }

abbrev pub since : Option ℕ → ℕ → ℕ
since none now = now
since (some t) now = t

-- `Side::update`, on a side that counts as present.
unfoldable pub update_present : Side → ℕ → Bool → Bool → Side
update_present s now spoke attached =
    let t = since s.gone_since now in
    if attached || spoke
    then record s { gone_since = none }
    else if leb hold_ms (now - t)
    then absent
    else record s { gone_since = some t }

unfoldable pub update_side : Side → ℕ → Bool → Bool → Side
unfolding update_present
update_side s now spoke attached =
    let s' = if spoke then record s { present = true } else s in
    if not s'.present then s' else update_present s' now spoke attached

-- The fields `usb` and `ble` are the two sides.
pub record Presence : Type 0 where
  pub usb_side : Side
  pub ble_side : Side
  pub dtr_seen : Bool
  pub was_rnode : Bool

abbrev pub new : Presence
new = record { usb_side = absent; ble_side = absent; dtr_seen = false; was_rnode = false }

unfoldable pub host : Presence → Option Transport
host p =
    if p.usb_side.present then some usb else if p.ble_side.present then some bluetooth else none

unfoldable pub mode_of : Option Transport → Bool → Mode
mode_of (some t) stored_config = rnode t
mode_of none stored_config = if stored_config then node else idle

unfoldable pub mode : Presence → Bool → Mode
unfolding mode_of host
mode p stored_config = mode_of (host p) stored_config

unfoldable pub change_of : Bool → Option Transport → Option Change
change_of false (some t) = some (host_arrived t)
change_of true none = some host_left
change_of _ _ = none

abbrev pub is_some {ℓ} : {A : Type ℓ} → Option A → Bool
is_some none = false
is_some (some _) = true

-- Whether DTR has been up since the USB host last spoke, before the sides are updated.
unfoldable pub dtr_now : Presence → Seen → Bool
dtr_now p seen =
    p.dtr_seen || (seen.usb_frame && seen.usb_dtr) || (seen.usb_dtr && p.usb_side.present)

unfoldable pub update : Presence → ℕ → Seen → Presence × Option Change
unfolding update_side dtr_now host change_of
update p now seen =
    let dtr = dtr_now p seen in
    let usb_attached = seen.usb_bus && (seen.usb_dtr || not dtr) in
    let usb' : Side = update_side p.usb_side now (seen.usb_frame && seen.usb_bus) usb_attached in
    let ble' : Side = update_side p.ble_side now (seen.ble_frame && seen.ble_link) seen.ble_link in
    let p' : Presence = record {
      usb_side = usb';
      ble_side = ble';
      dtr_seen = if not usb'.present then false else dtr;
      was_rnode = p.was_rnode;
    } in
    (record p' { was_rnode = is_some (host p') }, change_of p.was_rnode (host p'))
