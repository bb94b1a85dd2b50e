-- ===== src/Params.antt =====
-- services/indexes/params: the parameters of the API's requests, how they are parsed from a query
-- string, and the keys that their responses are cached under.
pub mod Query
pub mod ListParams
pub mod Transactions
pub mod CTransactions
pub mod Listings
