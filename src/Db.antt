-- ===== src/Db.antt =====
-- services/db and db: SQL statements as values, the rows of the tables, and the upserts.
pub mod Transaction
pub mod Exec
pub mod Rows
pub mod Columns
pub mod Persist
pub mod Table
pub mod Stored
pub mod OneTable
pub mod Rewrite
pub mod Platform
pub mod Contract
pub mod Balances
pub mod Pool
pub mod Queries
pub mod Always
pub mod Keeps
