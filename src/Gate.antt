-- ===== src/Gate.antt =====
-- gate/base: the sessions of the devices, the handler that other modules call, and the agent that
-- stands between a connection and the modules.
pub mod Session
pub mod Handler
pub mod Remote
pub mod Transport
pub mod Agent
pub mod UriRoute
pub mod Counting
mod Tests
