-- ===== src/Rnode/Transport.antt =====
-- core/src/rnode/hosts.rs: the two ways a host reaches the modem, and who hears what nobody asked
-- for.
use oxinode.Prelude.{Bool, if◌then◌else◌}

pub data Transport : Type 0 where
  usb bluetooth : Transport

-- `Transport::listener`.
unfoldable pub listener_of : Bool → Transport
listener_of phone_connected = if phone_connected then bluetooth else usb
