-- ===== src/Tcp.antt =====
-- The TCP half of the library: include/tcp/asio.
pub mod Socket
pub mod Reading
mod Connection
mod Listener
mod Connector
mod Protocol
mod Handlers
mod Lifetime
mod Stall
mod Tests
