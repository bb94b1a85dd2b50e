-- ===== src/Db/Queries/Contract.antt =====
-- db/dbmodel.go: loading the rows of the contract chain.
use axia_network_v2_magellan.Prelude.{[], ◌∷◌}
use axia_network_v2_magellan.Prelude.Text.{Text, codes}
use axia_network_v2_magellan.Prelude.Result.{Result}
use axia_network_v2_magellan.Db.Exec.{text, num, raw, equals}
use axia_network_v2_magellan.Db.Columns.{Row}
use axia_network_v2_magellan.Db.Queries.{Reads, loaded, text_at, num_at, bytes_at, flag_at, time_at}
use axia_network_v2_magellan.Db.Contract.{
  CvmBlocks, CvmAddresses, CvmTransactions, CvmTransactionsTxdata, CvmTransactionsTxdataTrace,
  CvmLogs,
}

abbrev cvm_blocks_of : Row → CvmBlocks
cvm_blocks_of r = record {
  block = text_at (codes "block") r;
  created_at = time_at (codes "created_at") r;
}

abbrev cvm_addresses_of : Row → CvmAddresses
cvm_addresses_of r = record {
  id = text_at (codes "id") r;
  axchain_type = num_at (codes "type") r;
  idx = num_at (codes "idx") r;
  transaction_id = text_at (codes "transaction_id") r;
  address = text_at (codes "address") r;
  asset_id = text_at (codes "asset_id") r;
  amount = num_at (codes "amount") r;
  nonce = num_at (codes "nonce") r;
  created_at = time_at (codes "created_at") r;
}

abbrev cvm_transactions_of : Row → CvmTransactions
cvm_transactions_of r = record {
  id = text_at (codes "id") r;
  transaction_id = text_at (codes "transaction_id") r;
  axchain_type = num_at (codes "type") r;
  blockchain_id = text_at (codes "blockchain_id") r;
  block = text_at (codes "block") r;
  created_at = time_at (codes "created_at") r;
  serialization = bytes_at (codes "serialization") r;
  tx_time = time_at (codes "tx_time") r;
  nonce = num_at (codes "nonce") r;
  hash = text_at (codes "hash") r;
  parent_hash = text_at (codes "parent_hash") r;
}

abbrev cvm_transactions_txdata_of : Row → CvmTransactionsTxdata
cvm_transactions_txdata_of r = record {
  hash = text_at (codes "hash") r;
  block = text_at (codes "block") r;
  idx = num_at (codes "idx") r;
  rcpt = text_at (codes "rcpt") r;
  nonce = num_at (codes "nonce") r;
  serialization = bytes_at (codes "serialization") r;
  created_at = time_at (codes "created_at") r;
}

abbrev cvm_transactions_txdata_trace_of : Row → CvmTransactionsTxdataTrace
cvm_transactions_txdata_trace_of r = record {
  hash = text_at (codes "hash") r;
  idx = num_at (codes "idx") r;
  to_addr = text_at (codes "to_addr") r;
  from_addr = text_at (codes "from_addr") r;
  call_type = text_at (codes "call_type") r;
  trace_type = text_at (codes "type") r;
  serialization = bytes_at (codes "serialization") r;
  created_at = time_at (codes "created_at") r;
}

abbrev cvm_logs_of : Row → CvmLogs
cvm_logs_of r = record {
  id = text_at (codes "id") r;
  block_hash = text_at (codes "block_hash") r;
  tx_hash = text_at (codes "tx_hash") r;
  log_index = num_at (codes "log_index") r;
  first_topic = text_at (codes "first_topic") r;
  block = text_at (codes "block") r;
  removed = flag_at (codes "removed") r;
  created_at = time_at (codes "created_at") r;
  serialization = bytes_at (codes "serialization") r;
}

module _ {D : Type 0} (s : Reads D) where
  unfoldable pub query_cvm_blocks : CvmBlocks → D → Result Text CvmBlocks
  query_cvm_blocks q d = loaded cvm_blocks_of (
      s.load_one (codes "cvm_blocks") (codes "block" ∷ codes "created_at" ∷ [])
        (equals (codes "block") (raw q.block) ∷ []) d)

  unfoldable pub query_cvm_addresses : CvmAddresses → D → Result Text CvmAddresses
  query_cvm_addresses q d = loaded cvm_addresses_of (
      s.load_one (codes "cvm_addresses")
        (codes "id"
          ∷ codes "type"
          ∷ codes "idx"
          ∷ codes "transaction_id"
          ∷ codes "address"
          ∷ codes "asset_id"
          ∷ codes "amount"
          ∷ codes "nonce"
          ∷ codes "created_at"
          ∷ [])
        (equals (codes "id") (text q.id) ∷ []) d)

  unfoldable pub query_cvm_transactions : CvmTransactions → D → Result Text CvmTransactions
  query_cvm_transactions q d = loaded cvm_transactions_of (
      s.load_one (codes "cvm_transactions")
        (codes "id"
          ∷ codes "transaction_id"
          ∷ codes "type"
          ∷ codes "blockchain_id"
          ∷ codes "cast(block as char) as block"
          ∷ codes "created_at"
          ∷ codes "serialization"
          ∷ codes "tx_time"
          ∷ codes "nonce"
          ∷ codes "hash"
          ∷ codes "parent_hash"
          ∷ [])
        (equals (codes "id") (text q.id) ∷ []) d)

  unfoldable pub query_cvm_transactions_txdata :
      CvmTransactionsTxdata → D → Result Text CvmTransactionsTxdata
  query_cvm_transactions_txdata q d = loaded cvm_transactions_txdata_of (
      s.load_one (codes "cvm_transactions_txdata")
        (codes "hash"
          ∷ codes "block"
          ∷ codes "idx"
          ∷ codes "rcpt"
          ∷ codes "nonce"
          ∷ codes "serialization"
          ∷ codes "created_at"
          ∷ [])
        (equals (codes "hash") (text q.hash) ∷ []) d)

  unfoldable pub query_cvm_transactions_txdata_trace :
      CvmTransactionsTxdataTrace → D → Result Text CvmTransactionsTxdataTrace
  query_cvm_transactions_txdata_trace q d = loaded cvm_transactions_txdata_trace_of (
      s.load_one (codes "cvm_transactions_txdata_trace")
        (codes "hash"
          ∷ codes "idx"
          ∷ codes "to_addr"
          ∷ codes "from_addr"
          ∷ codes "call_type"
          ∷ codes "type"
          ∷ codes "serialization"
          ∷ codes "created_at"
          ∷ [])
        (equals (codes "hash") (text q.hash) ∷ equals (codes "idx") (num q.idx) ∷ []) d)

  unfoldable pub query_cvm_logs : CvmLogs → D → Result Text CvmLogs
  query_cvm_logs q d = loaded cvm_logs_of (
      s.load_one (codes "cvm_logs")
        (codes "id"
          ∷ codes "block_hash"
          ∷ codes "tx_hash"
          ∷ codes "log_index"
          ∷ codes "first_topic"
          ∷ codes "block"
          ∷ codes "removed"
          ∷ codes "created_at"
          ∷ codes "serialization"
          ∷ [])
        (equals (codes "id") (text q.id) ∷ []) d)
