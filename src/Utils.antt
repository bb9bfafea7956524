-- ===== src/Utils.antt =====
-- include/utils: the byte ring and the timer.
pub mod LoopBuffer
pub mod Timer
pub mod Url
