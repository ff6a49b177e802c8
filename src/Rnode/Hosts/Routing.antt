-- ===== src/Rnode/Hosts/Routing.antt =====
-- Who gets a frame, behind a presence update of the board's mode.
use oxinode.Prelude.{ℕ, Bool, ◌&&◌, ◌||◌, not, some, ◌≡◌, if◌then◌else◌, Bytes, arith}
use oxinode.Mode.{Presence, has_host, mode}
use oxinode.Rnode.Outbox
use oxinode.Rnode.Hosts.{Hosts, attend, unsolicited}

-- With the board's mode taken from who is present, a frame that nobody asked for reaches one
-- outbox at most: the phone's while one is connected and USB's otherwise if a host is present,
-- whatever transport that host is on, and none if no host is; the other outbox is untouched.
pub unsolicited-attend :
    (n : ℕ) (h : Hosts) (p : Presence) (stored phone : Bool) (c : ℕ) (payload : Bytes)
    → let here = attend h (some (mode p stored)) in
      let present = p.usb_side.present || p.ble_side.present in
      let after = unsolicited n phone c payload here in
      (after.bluetooth_box
        ≡ (if present && phone then Outbox.frame n h.bluetooth_box c payload else h.bluetooth_box))
      × (after.usb_box
          ≡ (if present && not phone then Outbox.frame n h.usb_box c payload else h.usb_box))
unfolding attend mode has_host unsolicited
unsolicited-attend n h p stored phone c payload = (ground arith, ground arith)
