-- ===== src/Api.antt =====
-- The HTTP interface of api/.
pub mod Context
pub mod Values
