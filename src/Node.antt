-- ===== src/Node.antt =====
-- core/src/node: the board as a node of its own.
pub mod Peers
pub mod Delivery
pub mod Outbox
pub mod Announce
pub mod Messages
