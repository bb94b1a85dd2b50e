-- ===== src/Db/Contract.antt =====
-- db/dbmodel.go: the rows of the contract chain. The number of a block is spliced into the statement.
use axia_network_v2_magellan.Prelude.{ℕ, Bool, List, [], ◌∷◌, some}
use axia_network_v2_magellan.Prelude.Text.{Text, codes}
use axia_network_v2_magellan.Params.Query.{Time}
use axia_network_v2_magellan.Db.Exec.{text, num, bytes, flag, time, raw, insert_into, Session, Exec}
use axia_network_v2_magellan.Db.Persist.{exec_tolerant, upsert}

pub record CvmBlocks : Type 0 where
  pub block : Text
  pub created_at : Time

pub record CvmAddresses : Type 0 where
  pub id : Text
  pub axchain_type : ℕ
  pub idx : ℕ
  pub transaction_id : Text
  pub address : Text
  pub asset_id : Text
  pub amount : ℕ
  pub nonce : ℕ
  pub created_at : Time

pub record CvmTransactions : Type 0 where
  pub id : Text
  pub transaction_id : Text
  pub axchain_type : ℕ
  pub blockchain_id : Text
  pub block : Text
  pub created_at : Time
  pub serialization : List ℕ
  pub tx_time : Time
  pub nonce : ℕ
  pub hash : Text
  pub parent_hash : Text

pub record CvmTransactionsTxdata : Type 0 where
  pub hash : Text
  pub block : Text
  pub idx : ℕ
  pub rcpt : Text
  pub nonce : ℕ
  pub serialization : List ℕ
  pub created_at : Time

pub record CvmTransactionsTxdataTrace : Type 0 where
  pub hash : Text
  pub idx : ℕ
  pub to_addr : Text
  pub from_addr : Text
  pub call_type : Text
  pub trace_type : Text
  pub serialization : List ℕ
  pub created_at : Time

pub record CvmLogs : Type 0 where
  pub id : Text
  pub block_hash : Text
  pub tx_hash : Text
  pub log_index : ℕ
  pub first_topic : Text
  pub block : Text
  pub removed : Bool
  pub created_at : Time
  pub serialization : List ℕ

module _ {D : Type 0} (s : Session D) where
  unfoldable pub insert_cvm_blocks : CvmBlocks → Exec D Unit
  insert_cvm_blocks v = exec_tolerant s (codes "cvm_blocks") (
      insert_into (codes "cvm_blocks")
        ((codes "block", raw v.block) ∷ (codes "created_at", time v.created_at) ∷ []))

  unfoldable pub insert_cvm_addresses : CvmAddresses → Bool → Exec D Unit
  insert_cvm_addresses v upd =
      upsert s (codes "cvm_addresses") (codes "cvm_addresses") ((codes "id", text v.id) ∷ [])
        ((codes "type", num v.axchain_type)
          ∷ (codes "idx", num v.idx)
          ∷ (codes "transaction_id", text v.transaction_id)
          ∷ (codes "address", text v.address)
          ∷ (codes "asset_id", text v.asset_id)
          ∷ (codes "amount", num v.amount)
          ∷ (codes "nonce", num v.nonce)
          ∷ (codes "created_at", time v.created_at)
          ∷ [])
        ((codes "type", num v.axchain_type)
          ∷ (codes "idx", num v.idx)
          ∷ (codes "transaction_id", text v.transaction_id)
          ∷ (codes "address", text v.address)
          ∷ (codes "asset_id", text v.asset_id)
          ∷ (codes "amount", num v.amount)
          ∷ (codes "nonce", num v.nonce)
          ∷ (codes "created_at", time v.created_at)
          ∷ [])
        upd

  unfoldable pub insert_cvm_transactions : CvmTransactions → Bool → Exec D Unit
  insert_cvm_transactions v upd =
      upsert s (codes "cvm_transactions") (codes "cvm_transactions") ((codes "id", text v.id) ∷ [])
        ((codes "transaction_id", text v.transaction_id)
          ∷ (codes "type", num v.axchain_type)
          ∷ (codes "blockchain_id", text v.blockchain_id)
          ∷ (codes "created_at", time v.created_at)
          ∷ (codes "block", raw v.block)
          ∷ (codes "serialization", bytes (some v.serialization))
          ∷ (codes "tx_time", time v.tx_time)
          ∷ (codes "nonce", num v.nonce)
          ∷ (codes "hash", text v.hash)
          ∷ (codes "parent_hash", text v.parent_hash)
          ∷ [])
        ((codes "transaction_id", text v.transaction_id)
          ∷ (codes "type", num v.axchain_type)
          ∷ (codes "blockchain_id", text v.blockchain_id)
          ∷ (codes "block", raw v.block)
          ∷ (codes "serialization", bytes (some v.serialization))
          ∷ (codes "tx_time", time v.tx_time)
          ∷ (codes "nonce", num v.nonce)
          ∷ (codes "hash", text v.hash)
          ∷ (codes "parent_hash", text v.parent_hash)
          ∷ (codes "created_at", time v.created_at)
          ∷ [])
        upd

  unfoldable pub insert_cvm_transactions_txdata : CvmTransactionsTxdata → Bool → Exec D Unit
  insert_cvm_transactions_txdata v upd =
      upsert s (codes "cvm_transactions_txdata") (codes "cvm_transactions_txdata")
        ((codes "hash", text v.hash) ∷ [])
        ((codes "block", raw v.block)
          ∷ (codes "idx", num v.idx)
          ∷ (codes "rcpt", text v.rcpt)
          ∷ (codes "nonce", num v.nonce)
          ∷ (codes "serialization", bytes (some v.serialization))
          ∷ (codes "created_at", time v.created_at)
          ∷ [])
        ((codes "block", raw v.block)
          ∷ (codes "idx", num v.idx)
          ∷ (codes "rcpt", text v.rcpt)
          ∷ (codes "nonce", num v.nonce)
          ∷ (codes "serialization", bytes (some v.serialization))
          ∷ (codes "created_at", time v.created_at)
          ∷ [])
        upd

  unfoldable pub insert_cvm_transactions_txdata_trace :
      CvmTransactionsTxdataTrace → Bool → Exec D Unit
  insert_cvm_transactions_txdata_trace v upd =
      upsert s (codes "cvm_transactions_txdata_trace") (codes "cvm_transactions_txdata_trace")
        ((codes "hash", text v.hash) ∷ (codes "idx", num v.idx) ∷ [])
        ((codes "to_addr", text v.to_addr)
          ∷ (codes "from_addr", text v.from_addr)
          ∷ (codes "call_type", text v.call_type)
          ∷ (codes "type", text v.trace_type)
          ∷ (codes "serialization", bytes (some v.serialization))
          ∷ (codes "created_at", time v.created_at)
          ∷ [])
        ((codes "to_addr", text v.to_addr)
          ∷ (codes "from_addr", text v.from_addr)
          ∷ (codes "call_type", text v.call_type)
          ∷ (codes "type", text v.trace_type)
          ∷ (codes "serialization", bytes (some v.serialization))
          ∷ (codes "created_at", time v.created_at)
          ∷ [])
        upd

  unfoldable pub insert_cvm_logs : CvmLogs → Bool → Exec D Unit
  insert_cvm_logs v upd =
      upsert s (codes "cvm_logs") (codes "cvm_logs") ((codes "id", text v.id) ∷ [])
        ((codes "block_hash", text v.block_hash)
          ∷ (codes "tx_hash", text v.tx_hash)
          ∷ (codes "log_index", num v.log_index)
          ∷ (codes "first_topic", text v.first_topic)
          ∷ (codes "block", raw v.block)
          ∷ (codes "removed", flag v.removed)
          ∷ (codes "created_at", time v.created_at)
          ∷ (codes "serialization", bytes (some v.serialization))
          ∷ [])
        ((codes "block_hash", text v.block_hash)
          ∷ (codes "tx_hash", text v.tx_hash)
          ∷ (codes "log_index", num v.log_index)
          ∷ (codes "first_topic", text v.first_topic)
          ∷ (codes "block", raw v.block)
          ∷ (codes "removed", flag v.removed)
          ∷ (codes "serialization", bytes (some v.serialization))
          ∷ (codes "created_at", time v.created_at)
          ∷ [])
        upd
