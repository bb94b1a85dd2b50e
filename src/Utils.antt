-- ===== src/Utils.antt =====
-- The shared data structures of utils/.
pub mod IndexedList
pub mod TtlMap
pub mod Cache
