-- ===== src/Cvm.antt =====
-- The contract chain: services/indexes/cvm.
pub mod Node
pub mod Writer
