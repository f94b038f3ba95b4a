-- ===== src/Mqtt.antt =====
-- gate/base/mqtt: the MQTT codec, the packet queue of a connection and the client on top of it.
pub mod MsgType
pub mod Pack
pub mod Input
pub mod Read
pub mod Output
pub mod Write
pub mod RoundTrip
pub mod Queue
pub mod Reply
pub mod Client
mod Tests
