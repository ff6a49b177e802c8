-- ===== src/Rnode.antt =====
-- core/src/rnode: the RNode side of the modem.
pub mod Command
pub mod Outbox
pub mod Hosts
pub mod Transport
pub mod Air
pub mod Kiss
pub mod Store
pub mod Eeprom
pub mod Display
pub mod Protocol
