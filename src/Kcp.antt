-- ===== src/Kcp.antt =====
-- include/kcp: reliable connections over datagrams.
pub mod Message
pub mod Ikcp
pub mod Connection
pub mod Control
pub mod Receive
pub mod Sending
pub mod Life
pub mod Listener
pub mod Connector
mod Samples
mod Tests
