-- ===== src/Pvm.antt =====
-- The platform chain: services/indexes/pvm.
pub mod Node
pub mod Writer
