-- ===== src/Udp.antt =====
-- include/udp: datagrams of one peer, and the listener that tells the peers apart.
pub mod Connection
pub mod Sending
pub mod Listener
pub mod Connector
pub mod Arrivals
mod Tests
