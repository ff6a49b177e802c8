-- ===== src/Lr1121.antt =====
-- core/src/lr1121: the radio chip's parameters, and the access to the channel.
pub mod Lora
pub mod Pa
pub mod Config
pub mod Csma
