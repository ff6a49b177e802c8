-- ===== src/Mode/Tests.antt =====
-- Presence at concrete inputs: a phone that drops off, and comes back too late.
use oxinode.Prelude.{◌≡◌, true, false, refl, [], ◌∷◌, some, none}
use oxinode.Rnode.Transport.{bluetooth}
use oxinode.Mode.{Seen, Side, Presence, new, host_arrived, host_left, update}
use oxinode.Mode.Changes.{changes, changes-Alternates, Alternates}

abbrev spoken : Seen
spoken = record {
  usb_bus = false;
  usb_dtr = false;
  usb_frame = false;
  ble_link = true;
  ble_frame = true;
}

abbrev linked : Seen
linked = record {
  usb_bus = false;
  usb_dtr = false;
  usb_frame = false;
  ble_link = true;
  ble_frame = false;
}

abbrev unplugged : Seen
unplugged = record {
  usb_bus = false;
  usb_dtr = false;
  usb_frame = false;
  ble_link = false;
  ble_frame = false;
}

abbrev phone_present : Presence
phone_present = record new {
  ble_side = record { present = true; gone_since = none };
  was_rnode = true;
}

changes-run :
    changes new
      ((0, spoken) ∷ (10, unplugged) ∷ (2000, linked) ∷ (2010, unplugged) ∷ (5010, unplugged) ∷ [])
    ≡ host_arrived bluetooth ∷ host_left ∷ []
unfolding changes update
changes-run = refl

changes-Alternates_example :
    Alternates true (changes phone_present ((10, unplugged) ∷ (3010, unplugged) ∷ []))
unfolding changes update
changes-Alternates_example =
    changes-Alternates phone_present ((10, unplugged) ∷ (3010, unplugged) ∷ [])

abbrev going : Side
going = record { present = true; gone_since = some 100 }
