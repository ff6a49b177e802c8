-- ===== src/Rnode/Hosts/Tests.antt =====
-- Routing at concrete inputs.
use oxinode.Prelude.{◌≡◌, [], ◌∷◌, true, false, some, none}
use oxinode.Mode
use oxinode.Mode.{Presence, mode}
use oxinode.Rnode.Outbox
use oxinode.Rnode.Hosts.{new, attend, unsolicited}
use oxinode.Rnode.Hosts.Routing.{unsolicited-attend}

-- A USB host, and a phone that is connected.
abbrev plugged : Presence
plugged = record Mode.new { usb_side = record { present = true; gone_since = none } }

unsolicited-attend_example :
    let after = unsolicited 8 true 0x00 (1 ∷ []) (attend (new 8) (some (mode plugged false))) in
    (after.bluetooth_box ≡ Outbox.frame 8 (new 8).bluetooth_box 0x00 (1 ∷ []))
    × (after.usb_box ≡ (new 8).usb_box)
unsolicited-attend_example = unsolicited-attend 8 (new 8) plugged false true 0x00 (1 ∷ [])
