-- ===== src/Avm.antt =====
-- The exchange chain: services/indexes/avm.
pub mod Node
pub mod Writer
