-- ===== src/Tests.antt =====
-- The theorems at concrete inputs, by component.
pub mod Setting
pub mod DbRows
pub mod Writing
pub mod Histograms
pub mod Isolation
pub mod Requests
pub mod Stores
pub mod Server
pub mod Accounts
pub mod PvmBlocks
pub mod Producing
pub mod ChainTxs
pub mod Exports
pub mod PoolRuns
pub mod Loading
