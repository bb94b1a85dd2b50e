-- ===== src/Db/Queries/Ledger.antt =====
-- db/dbmodel.go: loading the rows of transactions, their outputs and addresses.
use axia_network_v2_magellan.Prelude.{[], ◌∷◌}
use axia_network_v2_magellan.Prelude.Text.{Text, codes}
use axia_network_v2_magellan.Prelude.Result.{Result}
use axia_network_v2_magellan.Db.Exec.{text, equals}
use axia_network_v2_magellan.Db.Columns.{Row}
use axia_network_v2_magellan.Db.Queries.{
  Reads, loaded, text_at, num_at, bytes_at, nullable_at, flag_at, time_at,
}
use axia_network_v2_magellan.Db.Rows.{
  Transactions, OutputsRedeeming, Outputs, Addresses, AddressChain, OutputAddresses, AddressBech32,
  TransactionsBlock, TransactionsValidator,
}

abbrev pub transactions_of : Row → Transactions
transactions_of r = record {
  id = text_at (codes "id") r;
  chain_id = text_at (codes "chain_id") r;
  tx_type = text_at (codes "type") r;
  memo = nullable_at (codes "memo") r;
  canonical_serialization = bytes_at (codes "canonical_serialization") r;
  txfee = num_at (codes "txfee") r;
  network_id = num_at (codes "network_id") r;
  genesis = flag_at (codes "genesis") r;
  created_at = time_at (codes "created_at") r;
}

abbrev outputs_redeeming_of : Row → OutputsRedeeming
outputs_redeeming_of r = record {
  id = text_at (codes "id") r;
  redeemed_at = time_at (codes "redeemed_at") r;
  redeeming_transaction_id = text_at (codes "redeeming_transaction_id") r;
  amount = num_at (codes "amount") r;
  output_index = num_at (codes "output_index") r;
  intx = text_at (codes "intx") r;
  asset_id = text_at (codes "asset_id") r;
  chain_id = text_at (codes "chain_id") r;
  created_at = time_at (codes "created_at") r;
}

abbrev outputs_of : Row → Outputs
outputs_of r = record {
  id = text_at (codes "id") r;
  chain_id = text_at (codes "chain_id") r;
  transaction_id = text_at (codes "transaction_id") r;
  output_index = num_at (codes "output_index") r;
  output_type = num_at (codes "output_type") r;
  asset_id = text_at (codes "asset_id") r;
  amount = num_at (codes "amount") r;
  locktime = num_at (codes "locktime") r;
  threshold = num_at (codes "threshold") r;
  group_id = num_at (codes "group_id") r;
  payload = nullable_at (codes "payload") r;
  stake_locktime = num_at (codes "stake_locktime") r;
  stake = flag_at (codes "stake") r;
  frozen = flag_at (codes "frozen") r;
  stakeableout = flag_at (codes "stakeableout") r;
  genesisutxo = flag_at (codes "genesisutxo") r;
  created_at = time_at (codes "created_at") r;
}

abbrev addresses_of : Row → Addresses
addresses_of r = record {
  address = text_at (codes "address") r;
  public_key = bytes_at (codes "public_key") r;
  created_at = time_at (codes "created_at") r;
  updated_at = time_at (codes "updated_at") r;
}

abbrev address_chain_of : Row → AddressChain
address_chain_of r = record {
  address = text_at (codes "address") r;
  chain_id = text_at (codes "chain_id") r;
  created_at = time_at (codes "created_at") r;
  updated_at = time_at (codes "updated_at") r;
}

abbrev output_addresses_of : Row → OutputAddresses
output_addresses_of r = record {
  output_id = text_at (codes "output_id") r;
  address = text_at (codes "address") r;
  redeeming_signature = nullable_at (codes "redeeming_signature") r;
  created_at = time_at (codes "created_at") r;
  updated_at = time_at (codes "updated_at") r;
}

abbrev address_bech32_of : Row → AddressBech32
address_bech32_of r = record {
  address = text_at (codes "address") r;
  bech32_address = text_at (codes "bech32_address") r;
  updated_at = time_at (codes "updated_at") r;
}

abbrev transactions_block_of : Row → TransactionsBlock
transactions_block_of r = record {
  id = text_at (codes "id") r;
  tx_block_id = text_at (codes "tx_block_id") r;
  created_at = time_at (codes "created_at") r;
}

abbrev transactions_validator_of : Row → TransactionsValidator
transactions_validator_of r = record {
  id = text_at (codes "id") r;
  node_id = text_at (codes "node_id") r;
  start = num_at (codes "start") r;
  end_time = num_at (codes "end") r;
  created_at = time_at (codes "created_at") r;
}

module _ {D : Type 0} (s : Reads D) where
  unfoldable pub query_transactions : Transactions → D → Result Text Transactions
  query_transactions q d = loaded transactions_of (
      s.load_one (codes "avm_transactions")
        (codes "id"
          ∷ codes "chain_id"
          ∷ codes "type"
          ∷ codes "memo"
          ∷ codes "created_at"
          ∷ codes "canonical_serialization"
          ∷ codes "txfee"
          ∷ codes "genesis"
          ∷ codes "network_id"
          ∷ [])
        (equals (codes "id") (text q.id) ∷ []) d)

  unfoldable pub query_outputs_redeeming : OutputsRedeeming → D → Result Text OutputsRedeeming
  query_outputs_redeeming q d = loaded outputs_redeeming_of (
      s.load_one (codes "avm_outputs_redeeming")
        (codes "id"
          ∷ codes "redeemed_at"
          ∷ codes "redeeming_transaction_id"
          ∷ codes "amount"
          ∷ codes "output_index"
          ∷ codes "intx"
          ∷ codes "asset_id"
          ∷ codes "chain_id"
          ∷ codes "created_at"
          ∷ [])
        (equals (codes "id") (text q.id) ∷ []) d)

  unfoldable pub query_outputs : Outputs → D → Result Text Outputs
  query_outputs q d = loaded outputs_of (
      s.load_one (codes "avm_outputs")
        (codes "id"
          ∷ codes "chain_id"
          ∷ codes "transaction_id"
          ∷ codes "output_index"
          ∷ codes "asset_id"
          ∷ codes "output_type"
          ∷ codes "amount"
          ∷ codes "locktime"
          ∷ codes "threshold"
          ∷ codes "group_id"
          ∷ codes "payload"
          ∷ codes "stake_locktime"
          ∷ codes "stake"
          ∷ codes "frozen"
          ∷ codes "stakeableout"
          ∷ codes "genesisutxo"
          ∷ codes "created_at"
          ∷ [])
        (equals (codes "id") (text q.id) ∷ []) d)

  unfoldable pub query_addresses : Addresses → D → Result Text Addresses
  query_addresses q d = loaded addresses_of (
      s.load_one (codes "addresses")
        (codes "address" ∷ codes "public_key" ∷ codes "created_at" ∷ codes "updated_at" ∷ [])
        (equals (codes "address") (text q.address) ∷ []) d)

  unfoldable pub query_address_chain : AddressChain → D → Result Text AddressChain
  query_address_chain q d = loaded address_chain_of (
      s.load_one (codes "address_chain")
        (codes "address" ∷ codes "chain_id" ∷ codes "created_at" ∷ codes "updated_at" ∷ [])
        (equals (codes "address") (text q.address)
          ∷ equals (codes "chain_id") (text q.chain_id)
          ∷ [])
        d)

  unfoldable pub query_output_addresses : OutputAddresses → D → Result Text OutputAddresses
  query_output_addresses q d = loaded output_addresses_of (
      s.load_one (codes "avm_output_addresses")
        (codes "output_id"
          ∷ codes "address"
          ∷ codes "redeeming_signature"
          ∷ codes "created_at"
          ∷ codes "updated_at"
          ∷ [])
        (equals (codes "output_id") (text q.output_id)
          ∷ equals (codes "address") (text q.address)
          ∷ [])
        d)

  unfoldable pub query_address_bech32 : AddressBech32 → D → Result Text AddressBech32
  query_address_bech32 q d = loaded address_bech32_of (
      s.load_one (codes "addresses_bech32")
        (codes "address" ∷ codes "bech32_address" ∷ codes "updated_at" ∷ [])
        (equals (codes "address") (text q.address) ∷ []) d)

  unfoldable pub query_transactions_block : TransactionsBlock → D → Result Text TransactionsBlock
  query_transactions_block q d = loaded transactions_block_of (
      s.load_one (codes "transactions_block")
        (codes "id" ∷ codes "tx_block_id" ∷ codes "created_at" ∷ [])
        (equals (codes "id") (text q.id) ∷ []) d)

  unfoldable pub query_transactions_validator :
      TransactionsValidator → D → Result Text TransactionsValidator
  query_transactions_validator q d = loaded transactions_validator_of (
      s.load_one (codes "transactions_validator")
        (codes "id" ∷ codes "node_id" ∷ codes "start" ∷ codes "end" ∷ codes "created_at" ∷ [])
        (equals (codes "id") (text q.id) ∷ []) d)
