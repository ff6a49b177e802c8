-- ===== src/Rnode/Hosts.antt =====
-- core/src/rnode/hosts.rs: an outbox for each transport, and where a frame goes.
pub mod Routing
mod Tests
use oxinode.Prelude.{ℕ, Bool, true, Option, none, some, if◌then◌else◌, Bytes}
use oxinode.Mode.{Mode, has_host}
use oxinode.Rnode.Outbox
use oxinode.Rnode.Outbox.{Outbox}
use oxinode.Rnode.Transport.{Transport, usb, bluetooth, listener_of}

pub record Hosts : Type 0 where
  pub usb_box : Outbox
  pub bluetooth_box : Outbox
  pub attended : Bool

unfoldable pub new : ℕ → Hosts
new n = record { usb_box = Outbox.new n; bluetooth_box = Outbox.new n; attended = true }

-- `outbox(transport)`, as what a change of that outbox makes of the whole.
unfoldable pub at_outbox : Transport → (Outbox → Outbox) → Hosts → Hosts
at_outbox usb change h = record h { usb_box = change h.usb_box }
at_outbox bluetooth change h = record h { bluetooth_box = change h.bluetooth_box }

unfoldable pub attend : Hosts → Option Mode → Hosts
unfolding has_host
attend h none = record h { attended = true }
attend h (some m) = record h { attended = has_host m }

-- `listener`: the transport of `Unsolicited::To`, or nobody.
unfoldable pub listener : Hosts → Bool → Option Transport
unfolding listener_of
listener h phone_connected = if h.attended then some (listener_of phone_connected) else none

-- `Sink::frame` of the answer of `listener`.
unfoldable pub deliver : ℕ → Option Transport → ℕ → Bytes → Hosts → Hosts
unfolding at_outbox
deliver n none command payload h = h
deliver n (some t) command payload h = at_outbox t (λ o. Outbox.frame n o command payload) h

-- A frame that nobody asked for.
unfoldable pub unsolicited : ℕ → Bool → ℕ → Bytes → Hosts → Hosts
unfolding listener deliver
unsolicited n phone_connected command payload h =
    deliver n (listener h phone_connected) command payload h

-- An answer to a command that came on a transport.
unfoldable pub answer : ℕ → Transport → ℕ → Bytes → Hosts → Hosts
unfolding at_outbox
answer n t command payload = at_outbox t (λ o. Outbox.frame n o command payload)
