-- ===== src/Lib.antt =====
-- oxinode: firmware that makes a LoRa board a host's RNode modem, or a node of its own.
--
-- The modelled parts, all of core/src unless another path is given:
-- * rnode/kiss.rs, in Rnode/Kiss: the frames between host and board. A `Decoder` takes a byte at a
--   time (`feed`), and the loop of src/nus.rs takes a write (`run`); `encode` writes a frame.
-- * rnode/command.rs, in Rnode/Command: what a frame asks for (`decode`).
-- * rnode/protocol.rs, in Rnode/Protocol: what a command does (`handle`), what the panel changes and
--   what a start resumes (Panel). It works on the configuration of lr1121/config.rs, the store of
--   rnode/store.rs and the picture of rnode/display.rs. What may happen to
--   the device is in Radio. Persist is the timer of src/bin/rnode.rs that writes the store to flash.
-- * rnode/eeprom.rs, in Rnode/Eeprom: the image that a host provisions, with the digests of hash/, in
--   Hash. Its cells are in Layout.
-- * rnode/store.rs, in Rnode/Store: all that is kept in flash. Record has the store and its record,
--   Crc the checksum, Codec a bond in its slot.
-- * rnode/display.rs, in Rnode/Display: the picture of a host, its drawing onto the frame of sh1107.rs
--   (Sh1107) and the reading of the panel (Panel).
-- * rnode/outbox.rs, in Rnode/Outbox: the responses that wait for a transport.
-- * rnode/hosts.rs, in Rnode/Hosts and Rnode/Transport: an outbox for each transport, and which of
--   them gets a frame. It asks mode.rs whether any host is there.
-- * rnode/air.rs, in Rnode/Air: a packet as one or two LoRa frames, and back.
-- * node/outbox.rs, in Node/Outbox: the messages that the board sends as a node. `queue` takes one,
--   `due` (Scheduling) says what to do next, `went`, `unbuildable` and `proved` (Attempts) say what
--   became of it, `hold`, `resume` and `retry` (Holding) follow the hosts. It asks node/peers.rs, in
--   Node/Peers, for keys; Node/Delivery has the states, from screens.rs.
-- * node/messages.rs, in Node/Messages: the messages that come. node/announce.rs, in Node/Announce:
--   when the board announces itself. alert.rs, in Alert: whether a message sounds.
-- * lr1121/csma.rs, in Lr1121/Csma: listening before a transmission, with the numbers of
--   lr1121/lora.rs and lr1121/config.rs (Lr1121/Lora, Lr1121/Config, its settings in
--   Lr1121/Config/Setting), whose `check_in` reads lr1121/pa.rs (Lr1121/Pa).
-- * mode.rs, in Mode: which host is present, from what the transports saw.
-- * pad.rs, in Pad: the six switches, as gestures. battery.rs, in Battery: the charge of the
--   cell. logbuf.rs, in LogBuf: the ring that keeps the log.
-- * w25q.rs, in W25q: the flash chip's identity, and the pattern that tests a sector.
--
-- How the model is made: a `&mut self` method is a function from a record to a record, a buffer is a
-- list of bytes whose length is the constant the source gives it, and an `Option` is an `Option`.
-- What `handle` hands to its sink is a list of frames in their order. A sum of several arms that the
-- source writes in one function is a helper by clauses, named for what the arm decides.
-- Bytes are numbers. The firmware is built with overflow checks off, so a `u32` counter wraps
-- (`inc_u32`). Every loop is structural recursion on the bytes it goes over or on a counter that the
-- source bounds, so no fuel is used. A signed power is an integer; milliseconds are a `u64` that wraps
-- where the source adds to them. Whether a key validates a proof or verifies a message, and the reading
-- of a display name, are arguments of the definitions that use them. Text is its bytes. Child modules
-- hold an abstract view where there is one (View), the refinement (Refine), what is proved, and tests
-- (Tests).
--
-- Not modelled: the asynchronous drivers of src/, which move bytes between peripherals and this
-- core, but for what Persist has of them; what the panel draws and how it is navigated
-- (core/src/screens.rs, core/src/ui.rs, core/src/edit.rs, panel/, sim/); core/src/gps.rs; the
-- registers of the radio chip; Reticulum's own crates.
mod Prelude
pub mod Alert
pub mod Battery
pub mod Hash
pub mod LogBuf
pub mod Lr1121
pub mod Mode
pub mod Node
pub mod Pad
pub mod Rnode
pub mod Sh1107
pub mod W25q
