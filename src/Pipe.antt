-- ===== src/Pipe.antt =====
-- The pipe protocol of include/pipe: messages with a head over a TCP connection, and the sessions that
-- are bound to connections by a handshake.
pub mod Proto
pub mod Delimit
pub mod Session
pub mod Factory
mod Tests
