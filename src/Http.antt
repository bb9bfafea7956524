-- ===== src/Http.antt =====
-- include/http: messages, their encoding, the callbacks of the parser, and the routing of requests.
pub mod Message
pub mod Encoder
pub mod Decoder
pub mod Connection
mod Tests
