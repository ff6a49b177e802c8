-- ===== src/Node/Delivery.antt =====
-- core/src/screens.rs: where a message that the board sends has got to.
use oxinode.Prelude.{ℕ, Bool, true, false}

pub data Wait : Type 0 where
  turn path host idle : Wait

pub data Failure : Type 0 where
  no_path no_proof : Failure

pub data Delivery : Type 0 where
  queued : Wait → Delivery
  sent : ℕ → Delivery
  delivered : Delivery
  failed : Failure → Delivery

-- The patterns that core/src/node/outbox.rs matches on.
unfoldable pub is_delivered : Delivery → Bool
is_delivered delivered = true
is_delivered _ = false

unfoldable pub is_failed : Delivery → Bool
is_failed (failed _) = true
is_failed _ = false

unfoldable pub in_flight : Delivery → Bool
in_flight (queued _) = true
in_flight (sent _) = true
in_flight _ = false

unfoldable pub is_held : Delivery → Bool
is_held (queued host) = true
is_held (queued idle) = true
is_held _ = false

unfoldable pub with_radio : Delivery → Bool
with_radio (queued turn) = true
with_radio (sent _) = true
with_radio _ = false
