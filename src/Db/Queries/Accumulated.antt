-- ===== src/Db/Queries/Accumulated.antt =====
-- db/dbmodel.go: loading the rows of the accumulators, of the pool, the settings and the progress.
use axia_network_v2_magellan.Prelude.{[], ◌∷◌}
use axia_network_v2_magellan.Prelude.Text.{Text, codes}
use axia_network_v2_magellan.Prelude.Result.{Result}
use axia_network_v2_magellan.Db.Exec.{text, equals}
use axia_network_v2_magellan.Db.Columns.{Row}
use axia_network_v2_magellan.Db.Queries.{Reads, loaded, text_at, num_at, bytes_at, time_at}
use axia_network_v2_magellan.Db.Rows.{OutputAddressAccumulate, OutputTxsAccumulate}
use axia_network_v2_magellan.Db.Balances.{AccumulateBalancesAmount, AccumulateBalancesTransactions}
use axia_network_v2_magellan.Db.Pool.{TxPool, KeyValueStore, NodeIndex}

abbrev output_address_accumulate_of : Row → OutputAddressAccumulate
output_address_accumulate_of r = record {
  id = text_at (codes "id") r;
  output_id = text_at (codes "output_id") r;
  address = text_at (codes "address") r;
  processed = num_at (codes "processed") r;
  output_processed = 0;
  transaction_id = text_at (codes "transaction_id") r;
  output_index = num_at (codes "output_index") r;
  created_at = time_at (codes "created_at") r;
}

abbrev output_txs_accumulate_of : Row → OutputTxsAccumulate
output_txs_accumulate_of r = record {
  id = text_at (codes "id") r;
  chain_id = text_at (codes "chain_id") r;
  asset_id = text_at (codes "asset_id") r;
  address = text_at (codes "address") r;
  transaction_id = text_at (codes "transaction_id") r;
  processed = num_at (codes "processed") r;
  created_at = time_at (codes "created_at") r;
}

abbrev accumulate_balances_amount_of : Row → AccumulateBalancesAmount
accumulate_balances_amount_of r = record {
  id = text_at (codes "id") r;
  chain_id = text_at (codes "chain_id") r;
  asset_id = text_at (codes "asset_id") r;
  address = text_at (codes "address") r;
  total_amount = text_at (codes "total_amount") r;
  utxo_count = text_at (codes "utxo_count") r;
  updated_at = time_at (codes "updated_at") r;
}

abbrev accumulate_balances_transactions_of : Row → AccumulateBalancesTransactions
accumulate_balances_transactions_of r = record {
  id = text_at (codes "id") r;
  chain_id = text_at (codes "chain_id") r;
  asset_id = text_at (codes "asset_id") r;
  address = text_at (codes "address") r;
  transaction_count = text_at (codes "transaction_count") r;
  updated_at = time_at (codes "updated_at") r;
}

abbrev tx_pool_of : Row → TxPool
tx_pool_of r = record {
  id = text_at (codes "id") r;
  network_id = num_at (codes "network_id") r;
  chain_id = text_at (codes "chain_id") r;
  msg_key = text_at (codes "msg_key") r;
  serialization = bytes_at (codes "serialization") r;
  processed = num_at (codes "processed") r;
  topic = text_at (codes "topic") r;
  created_at = time_at (codes "created_at") r;
}

abbrev key_value_store_of : Row → KeyValueStore
key_value_store_of r = record { k = text_at (codes "k") r; v = text_at (codes "v") r }

abbrev node_index_of : Row → NodeIndex
node_index_of r = record {
  instance = text_at (codes "instance") r;
  topic = text_at (codes "topic") r;
  idx = num_at (codes "idx") r;
}

module _ {D : Type 0} (s : Reads D) where
  unfoldable pub query_output_address_accumulate_out :
      OutputAddressAccumulate → D → Result Text OutputAddressAccumulate
  query_output_address_accumulate_out q d = loaded output_address_accumulate_of (
      s.load_one (codes "output_addresses_accumulate_out")
        (codes "id"
          ∷ codes "output_id"
          ∷ codes "address"
          ∷ codes "processed"
          ∷ codes "transaction_id"
          ∷ codes "output_index"
          ∷ codes "created_at"
          ∷ [])
        (equals (codes "id") (text q.id) ∷ []) d)

  unfoldable pub query_output_address_accumulate_in :
      OutputAddressAccumulate → D → Result Text OutputAddressAccumulate
  query_output_address_accumulate_in q d = loaded output_address_accumulate_of (
      s.load_one (codes "output_addresses_accumulate_in")
        (codes "id"
          ∷ codes "output_id"
          ∷ codes "address"
          ∷ codes "processed"
          ∷ codes "transaction_id"
          ∷ codes "output_index"
          ∷ codes "created_at"
          ∷ [])
        (equals (codes "id") (text q.id) ∷ []) d)

  unfoldable pub query_output_txs_accumulate :
      OutputTxsAccumulate → D → Result Text OutputTxsAccumulate
  query_output_txs_accumulate q d = loaded output_txs_accumulate_of (
      s.load_one (codes "output_txs_accumulate")
        (codes "id"
          ∷ codes "chain_id"
          ∷ codes "asset_id"
          ∷ codes "address"
          ∷ codes "transaction_id"
          ∷ codes "processed"
          ∷ codes "created_at"
          ∷ [])
        (equals (codes "id") (text q.id) ∷ []) d)

  unfoldable pub query_accumulate_balances_received :
      AccumulateBalancesAmount → D → Result Text AccumulateBalancesAmount
  query_accumulate_balances_received q d = loaded accumulate_balances_amount_of (
      s.load_one (codes "accumulate_balances_received")
        (codes "id"
          ∷ codes "chain_id"
          ∷ codes "asset_id"
          ∷ codes "address"
          ∷ codes "cast(total_amount as char) total_amount"
          ∷ codes "cast(utxo_count as char) utxo_count"
          ∷ codes "updated_at"
          ∷ [])
        (equals (codes "id") (text q.id) ∷ []) d)

  unfoldable pub query_accumulate_balances_sent :
      AccumulateBalancesAmount → D → Result Text AccumulateBalancesAmount
  query_accumulate_balances_sent q d = loaded accumulate_balances_amount_of (
      s.load_one (codes "accumulate_balances_sent")
        (codes "id"
          ∷ codes "chain_id"
          ∷ codes "asset_id"
          ∷ codes "address"
          ∷ codes "cast(total_amount as char) total_amount"
          ∷ codes "cast(utxo_count as char) utxo_count"
          ∷ codes "updated_at"
          ∷ [])
        (equals (codes "id") (text q.id) ∷ []) d)

  unfoldable pub query_accumulate_balances_transactions :
      AccumulateBalancesTransactions → D → Result Text AccumulateBalancesTransactions
  query_accumulate_balances_transactions q d = loaded accumulate_balances_transactions_of (
      s.load_one (codes "accumulate_balances_transactions")
        (codes "id"
          ∷ codes "chain_id"
          ∷ codes "asset_id"
          ∷ codes "address"
          ∷ codes "cast(transaction_count as char) transaction_count"
          ∷ codes "updated_at"
          ∷ [])
        (equals (codes "id") (text q.id) ∷ []) d)

  unfoldable pub query_tx_pool : TxPool → D → Result Text TxPool
  query_tx_pool q d = loaded tx_pool_of (
      s.load_one (codes "tx_pool")
        (codes "id"
          ∷ codes "network_id"
          ∷ codes "chain_id"
          ∷ codes "msg_key"
          ∷ codes "serialization"
          ∷ codes "processed"
          ∷ codes "topic"
          ∷ codes "created_at"
          ∷ [])
        (equals (codes "id") (text q.id) ∷ []) d)

  unfoldable pub query_key_value_store : KeyValueStore → D → Result Text KeyValueStore
  query_key_value_store q d = loaded key_value_store_of (
      s.load_one (codes "key_value_store") (codes "k" ∷ codes "v" ∷ [])
        (equals (codes "k") (text q.k) ∷ []) d)

  unfoldable pub query_node_index : NodeIndex → D → Result Text NodeIndex
  query_node_index q d = loaded node_index_of (
      s.load_one (codes "node_index") (codes "instance" ∷ codes "topic" ∷ codes "idx" ∷ [])
        (equals (codes "instance") (text q.instance) ∷ equals (codes "topic") (text q.topic) ∷ [])
        d)
