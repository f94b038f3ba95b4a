-- ===== src/Mqtt/RoundTrip.antt =====
-- What `ReadPack` reads back of what `DelayWritePack` wrote (gate/base/mqtt/mqtt.go).
pub mod Length
pub mod Fields
pub mod Acks
pub mod Publishes
pub mod Topics
