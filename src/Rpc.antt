-- ===== src/Rpc.antt =====
-- rpc: calls from one module to another; the arguments, the server and the client.
pub mod Args
pub mod Server
pub mod Client
pub mod Reply
pub mod Nats
mod Tests
