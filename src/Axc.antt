-- ===== src/Axc.antt =====
-- services/indexes/axc: the writer of transactions, and the readers' sums.
pub mod Node
pub mod Outputs
pub mod Inputs
pub mod Writer
pub mod Aggregates
pub mod Histogram
pub mod TxList
pub mod AssetInfos
