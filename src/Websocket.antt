-- ===== src/Websocket.antt =====
-- include/websocket: the frames, the reader of messages and the upgrade of a connection.
pub mod Frame
pub mod Reader
pub mod Upgrade
