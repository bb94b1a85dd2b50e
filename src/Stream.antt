-- ===== src/Stream.antt =====
-- The consumers of the stream: stream/.
pub mod Pool
pub mod Producer
