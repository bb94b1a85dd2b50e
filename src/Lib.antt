-- ===== src/Lib.antt =====
-- A verification library for Magellan, the indexer of the AXIA network. Magellan reads blocks and
-- transactions of the network's chains from a stream, writes them as rows of a MySQL database, and
-- answers queries over HTTP from those rows.
--
-- The parts and how they meet: an indexer's writer (services/indexes/axc/writer.go) turns one
-- decoded transaction into statements through the persist methods of db/dbmodel.go; the platform
-- chain's writer (services/indexes/pvm/writer.go) decodes blocks and calls it. Messages reach the
-- writers through the channel of stream/consumers/indexer.go, which a reader of the pool table and
-- the producers fill and ten workers empty. The accumulators of balance/balance_manager.go go through the rows that a writer left unprocessed. A
-- request is parsed by services/indexes/params, and answered by api/context.go from the response
-- cache of utils/ttlmapcache.go, under its cache key, or by a new run of the reader, which a
-- worker then puts in the cache; the reader (services/indexes/axc/reader.go) builds histograms
-- from grouped rows, and keeps the latest transactions in memory. The consumers skip rows that are
-- in the bounded list of utils/indexedlist.go.
--
-- Files:
--   Prelude: shared names, Boolean tests, lists, maps as association lists, integers, byte
--     strings, results.
--   Strconv: the functions of Go's strconv, strings and math/big that the code uses.
--   Db/Exec, Db/Rows, Db/Columns, Db/Persist: db/dbmodel.go. A statement is a value, a session
--     runs it on a state of the world and returns the text of an error; what earlier statements
--     wrote stays. Each method is named as in the source: insert_transactions for
--     InsertTransactions.
--   Db/Table, Db/OneTable: what the upserts rely on of a table, and a table in memory that has it.
--   Db/Stored, Db/Rewrite: what a table holds after an upsert.
--   Db/Platform, Db/Contract, Db/Balances, Db/Pool: the rows and methods of the platform chain, the
--     contract chain, the accumulated balances, and the pool of messages.
--   Db/Queries and its children: the methods that load a row; RoundTrip: writing and loading.
--   Axc/Node, Axc/Outputs, Axc/Inputs, Axc/Writer: services/indexes/axc/writer.go, function by
--     function, on the node's types in Axc/Node; Axc/Writer/Sums and Fee: its sums.
--   Axc/Aggregates, Axc/Histogram: Aggregate and TxfeeAggregate of services/indexes/axc/reader.go;
--     Fill, Totals, Whole and Bounds: where the rows go, the totals, the two together, and the
--     number of intervals.
--   Axc/TxList, Axc/AssetInfos: reader_aggregate_processor.go and reader_util.go.
--   Balance: the loops of balance/balance_manager.go; Batches and Retries: their groups and ends.
--   Balance/Database, Balance/Outputs: its transaction of a group of outputs, on a database whose
--     queries are fields of a record; Ledger: the laws of such a database, with one view from
--     inside the transaction and one from outside; Hidden, Credited, Accounted and Groups: the
--     proof, from what others see of a statement to what they see of the whole.
--   Balance/Made: the balances that are missing, on a database that reports no errors of its own.
--   Balance/Transactions: its transaction of a group of transactions, and the manager's triggers.
--   Models: the names of models/types.go.
--   Pvm/Node, Pvm/Writer, Pvm/Writer/Stakes, Pvm/Writer/Blocks: services/indexes/pvm/writer.go;
--     Strict and Stored: its collected errors, and the row of a transaction; Keeps and Atomic: that
--     it changes the state by statements only, and the SQL transaction of a block.
--   Avm/Node, Avm/Writer, Cvm/Node, Cvm/Writer: services/indexes/avm/writer.go with parser.go, and
--     services/indexes/cvm/writer.go; their Stored: the row of a transaction. Db/Transaction: the SQL
--     transaction around the work of a consumer.
--   Db/Always, Db/Keeps: what code does to the state whatever comes of it, and code that keeps to a
--     relation that every statement keeps to; Db/Transaction/Atomic: a database that isolates
--     transactions, and what all or nothing is on it; Axc/Writer/Keeps: the writer on such a relation.
--   Stream/Pool: the channel, the reader and the workers of stream/consumers/indexer.go with
--     Control of servicesctrl/services_control.go, as steps in any order; Facts, Handled and Drained: what
--     was done with a row, and that no message blocks the channel.
--   Stream/Producer: the producer of stream/producer_chain.go, with UpdateTxPool of processor.go;
--     Covered, Progress and Reached: that no container of the node is skipped.
--   Params/Query, ListParams, Transactions, CTransactions, Listings: services/indexes/params.
--   Utils/IndexedList, Utils/TtlMap, Utils/Cache: utils/indexedlist.go, utils/ttlmapcache.go, and
--     utils/cache.go with utils/delay_cache.go and the channel of utils/worker.go.
--   Api/Context, Api/Values: WriteCacheable of api/context.go, with the server's steps as a
--     relation in which requests, the one worker and the expiry come in any order; the parameters
--     of api/utils.go.
--   Tests: every theorem at a concrete input.
--
-- Bounds and fuel: unsigned integers of 64 bits are native numbers with the wrap-around written
-- out where the code adds or subtracts; math.Add64 is a parameter that returns the sum or an
-- error. The loop of the bounded list has the list's length as fuel, which each round shortens.
-- The two retry loops of the accumulators have no bound in the code: they take fuel, and the
-- theorem about repeat_for_lock says how much is enough. Printing a number of 64 bits takes 20
-- digits.
--
-- Not modelled: the text of SQL and what the database does with it, beyond the laws of Db/Table,
-- Db/Queries/RoundTrip and Balance/Ledger, which suppose that a transaction is isolated; the node's
-- codecs, hashes and key recovery, which are parameters; times of the clock, which are read from
-- the state or passed in; the floating-point interval count; deadlines of contexts; the
-- goroutines of the balance manager; ParseJSON and NewWriter of the
-- writers; the processors of the stream and the producer of the contract chain, the listing of
-- transactions, the rewards handler, the routes and handlers of the HTTP server, and replay. A
-- mutex makes the method it guards one step; the expiry of the cache takes a step for each of its passes
-- over a bucket and for each key that it deletes. In Stream/Pool the run of a processor is one step,
-- since its statements are one SQL transaction.
pub mod Prelude
pub mod Strconv
pub mod Params
pub mod Utils
pub mod Db
pub mod Axc
pub mod Balance
pub mod Models
pub mod Avm
pub mod Cvm
pub mod Pvm
pub mod Stream
pub mod Api
pub mod Tests
