-- ===== src/Db/Rows.antt =====
-- db/dbmodel.go: the rows of the tables.
use axia_network_v2_magellan.Prelude.{ℕ, Bool, List, Option}
use axia_network_v2_magellan.Prelude.Text.{Text}
use axia_network_v2_magellan.Params.Query.{Time}

pub record Transactions : Type 0 where
  pub id : Text
  pub chain_id : Text
  pub tx_type : Text
  pub memo : Option (List ℕ)
  pub canonical_serialization : List ℕ
  pub txfee : ℕ
  pub network_id : ℕ
  pub genesis : Bool
  pub created_at : Time

pub record OutputsRedeeming : Type 0 where
  pub id : Text
  pub redeemed_at : Time
  pub redeeming_transaction_id : Text
  pub amount : ℕ
  pub output_index : ℕ
  pub intx : Text
  pub asset_id : Text
  pub chain_id : Text
  pub created_at : Time

pub record Outputs : Type 0 where
  pub id : Text
  pub chain_id : Text
  pub transaction_id : Text
  pub output_index : ℕ
  pub output_type : ℕ
  pub asset_id : Text
  pub amount : ℕ
  pub locktime : ℕ
  pub threshold : ℕ
  pub group_id : ℕ
  pub payload : Option (List ℕ)
  pub stake_locktime : ℕ
  pub stake : Bool
  pub frozen : Bool
  pub stakeableout : Bool
  pub genesisutxo : Bool
  pub created_at : Time

pub record Addresses : Type 0 where
  pub address : Text
  pub public_key : List ℕ
  pub created_at : Time
  pub updated_at : Time

pub record AddressChain : Type 0 where
  pub address : Text
  pub chain_id : Text
  pub created_at : Time
  pub updated_at : Time

-- A nil signature is `none`.
pub record OutputAddresses : Type 0 where
  pub output_id : Text
  pub address : Text
  pub redeeming_signature : Option (List ℕ)
  pub created_at : Time
  pub updated_at : Time

pub record AddressBech32 : Type 0 where
  pub address : Text
  pub bech32_address : Text
  pub updated_at : Time

pub record OutputAddressAccumulate : Type 0 where
  pub id : Text
  pub output_id : Text
  pub address : Text
  pub processed : ℕ
  pub output_processed : ℕ
  pub transaction_id : Text
  pub output_index : ℕ
  pub created_at : Time

pub record OutputTxsAccumulate : Type 0 where
  pub id : Text
  pub chain_id : Text
  pub asset_id : Text
  pub address : Text
  pub transaction_id : Text
  pub processed : ℕ
  pub created_at : Time

pub record PvmBlocks : Type 0 where
  pub id : Text
  pub chain_id : Text
  pub block_type : ℕ
  pub parent_id : Text
  pub serialization : List ℕ
  pub created_at : Time
  pub height : ℕ

pub record Rewards : Type 0 where
  pub id : Text
  pub block_id : Text
  pub txid : Text
  pub shouldprefercommit : Bool
  pub created_at : Time
  pub processed : ℕ

pub record TransactionsValidator : Type 0 where
  pub id : Text
  pub node_id : Text
  pub start : ℕ
  pub end_time : ℕ
  pub created_at : Time

pub record TransactionsBlock : Type 0 where
  pub id : Text
  pub tx_block_id : Text
  pub created_at : Time
