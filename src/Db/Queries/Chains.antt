-- ===== src/Db/Queries/Chains.antt =====
-- db/dbmodel.go: loading the rows of blocks, rewards, and assets.
use axia_network_v2_magellan.Prelude.{[], ◌∷◌}
use axia_network_v2_magellan.Prelude.Text.{Text, codes}
use axia_network_v2_magellan.Prelude.Result.{Result}
use axia_network_v2_magellan.Db.Exec.{text, equals}
use axia_network_v2_magellan.Db.Columns.{Row}
use axia_network_v2_magellan.Db.Queries.{Reads, loaded, text_at, num_at, bytes_at, flag_at, time_at}
use axia_network_v2_magellan.Db.Rows.{PvmBlocks, Rewards}
use axia_network_v2_magellan.Db.Platform.{
  PvmProposer, Assets, TransactionsEpoch, TransactionsRewardsOwnersAddress,
  TransactionsRewardsOwnersOutputs, TransactionsRewardsOwners,
}

abbrev pvm_blocks_of : Row → PvmBlocks
pvm_blocks_of r = record {
  id = text_at (codes "id") r;
  chain_id = text_at (codes "chain_id") r;
  block_type = num_at (codes "type") r;
  parent_id = text_at (codes "parent_id") r;
  serialization = bytes_at (codes "serialization") r;
  created_at = time_at (codes "created_at") r;
  height = num_at (codes "height") r;
}

abbrev rewards_of : Row → Rewards
rewards_of r = record {
  id = text_at (codes "id") r;
  block_id = text_at (codes "block_id") r;
  txid = text_at (codes "txid") r;
  shouldprefercommit = flag_at (codes "shouldprefercommit") r;
  created_at = time_at (codes "created_at") r;
  processed = num_at (codes "processed") r;
}

abbrev pvm_proposer_of : Row → PvmProposer
pvm_proposer_of r = record {
  id = text_at (codes "id") r;
  parent_id = text_at (codes "parent_id") r;
  blk_id = text_at (codes "blk_id") r;
  proposer_blk_id = text_at (codes "proposer_blk_id") r;
  core_chain_height = 0;
  proposer = text_at (codes "proposer") r;
  time_stamp = time_at (codes "time_stamp") r;
  created_at = time_at (codes "created_at") r;
}

abbrev assets_of : Row → Assets
assets_of r = record {
  id = text_at (codes "id") r;
  chain_id = text_at (codes "chain_id") r;
  name = text_at (codes "name") r;
  symbol = text_at (codes "symbol") r;
  denomination = num_at (codes "denomination") r;
  alias = text_at (codes "alias") r;
  current_supply = num_at (codes "current_supply") r;
  created_at = time_at (codes "created_at") r;
}

abbrev transactions_epoch_of : Row → TransactionsEpoch
transactions_epoch_of r = record {
  id = text_at (codes "id") r;
  epoch = num_at (codes "epoch") r;
  vertex_id = text_at (codes "vertex_id") r;
  created_at = time_at (codes "created_at") r;
}

abbrev transactions_rewards_owners_address_of : Row → TransactionsRewardsOwnersAddress
transactions_rewards_owners_address_of r = record {
  id = text_at (codes "id") r;
  address = text_at (codes "address") r;
  output_index = num_at (codes "output_index") r;
  updated_at = time_at (codes "updated_at") r;
}

abbrev transactions_rewards_owners_outputs_of : Row → TransactionsRewardsOwnersOutputs
transactions_rewards_owners_outputs_of r = record {
  id = text_at (codes "id") r;
  transaction_id = text_at (codes "transaction_id") r;
  output_index = num_at (codes "output_index") r;
  created_at = time_at (codes "created_at") r;
}

abbrev transactions_rewards_owners_of : Row → TransactionsRewardsOwners
transactions_rewards_owners_of r = record {
  id = text_at (codes "id") r;
  chain_id = text_at (codes "chain_id") r;
  threshold = num_at (codes "threshold") r;
  locktime = num_at (codes "locktime") r;
  created_at = time_at (codes "created_at") r;
}

module _ {D : Type 0} (s : Reads D) where
  unfoldable pub query_pvm_blocks : PvmBlocks → D → Result Text PvmBlocks
  query_pvm_blocks q d = loaded pvm_blocks_of (
      s.load_one (codes "pvm_blocks")
        (codes "id"
          ∷ codes "chain_id"
          ∷ codes "type"
          ∷ codes "parent_id"
          ∷ codes "serialization"
          ∷ codes "created_at"
          ∷ codes "height"
          ∷ [])
        (equals (codes "id") (text q.id) ∷ []) d)

  unfoldable pub query_rewards : Rewards → D → Result Text Rewards
  query_rewards q d = loaded rewards_of (
      s.load_one (codes "rewards")
        (codes "id"
          ∷ codes "block_id"
          ∷ codes "txid"
          ∷ codes "shouldprefercommit"
          ∷ codes "created_at"
          ∷ codes "processed"
          ∷ [])
        (equals (codes "id") (text q.id) ∷ []) d)

  unfoldable pub query_pvm_proposer : PvmProposer → D → Result Text PvmProposer
  query_pvm_proposer q d = loaded pvm_proposer_of (
      s.load_one (codes "pvm_proposer")
        (codes "id"
          ∷ codes "parent_id"
          ∷ codes "blk_id"
          ∷ codes "p_chain_height"
          ∷ codes "proposer"
          ∷ codes "time_stamp"
          ∷ codes "created_at"
          ∷ codes "proposer_blk_id"
          ∷ [])
        (equals (codes "id") (text q.id) ∷ []) d)

  unfoldable pub query_assets : Assets → D → Result Text Assets
  query_assets q d = loaded assets_of (
      s.load_one (codes "avm_assets")
        (codes "id"
          ∷ codes "chain_id"
          ∷ codes "name"
          ∷ codes "symbol"
          ∷ codes "denomination"
          ∷ codes "alias"
          ∷ codes "current_supply"
          ∷ codes "created_at"
          ∷ [])
        (equals (codes "id") (text q.id) ∷ []) d)

  unfoldable pub query_transactions_epoch : TransactionsEpoch → D → Result Text TransactionsEpoch
  query_transactions_epoch q d = loaded transactions_epoch_of (
      s.load_one (codes "transactions_epoch")
        (codes "id" ∷ codes "epoch" ∷ codes "vertex_id" ∷ codes "created_at" ∷ [])
        (equals (codes "id") (text q.id) ∷ []) d)

  unfoldable pub query_transactions_rewards_owners_address :
      TransactionsRewardsOwnersAddress → D → Result Text TransactionsRewardsOwnersAddress
  query_transactions_rewards_owners_address q d = loaded transactions_rewards_owners_address_of (
      s.load_one (codes "transactions_rewards_owners_address")
        (codes "id" ∷ codes "address" ∷ codes "output_index" ∷ codes "updated_at" ∷ [])
        (equals (codes "id") (text q.id) ∷ equals (codes "address") (text q.address) ∷ []) d)

  unfoldable pub query_transactions_rewards_owners_outputs :
      TransactionsRewardsOwnersOutputs → D → Result Text TransactionsRewardsOwnersOutputs
  query_transactions_rewards_owners_outputs q d = loaded transactions_rewards_owners_outputs_of (
      s.load_one (codes "transactions_rewards_owners_outputs")
        (codes "id" ∷ codes "transaction_id" ∷ codes "output_index" ∷ codes "created_at" ∷ [])
        (equals (codes "id") (text q.id) ∷ []) d)

  unfoldable pub query_transactions_rewards_owners :
      TransactionsRewardsOwners → D → Result Text TransactionsRewardsOwners
  query_transactions_rewards_owners q d = loaded transactions_rewards_owners_of (
      s.load_one (codes "transactions_rewards_owners")
        (codes "id"
          ∷ codes "chain_id"
          ∷ codes "locktime"
          ∷ codes "threshold"
          ∷ codes "created_at"
          ∷ [])
        (equals (codes "id") (text q.id) ∷ []) d)
