-- ===== src/Db/Persist.antt =====
-- db/dbmodel.go: the methods of `persist` that write a row. Each inserts it, lets a duplicate key
-- pass, and then updates the row of that key if it is told to.
use axia_network_v2_magellan.Prelude.{
  Bool, true, false, [], ◌∷◌, ◌++◌, Option, none, some, if◌then◌else◌,
}
use axia_network_v2_magellan.Prelude.Text.{Text, codes}
use axia_network_v2_magellan.Prelude.Result.{Result, ok, err}
use axia_network_v2_magellan.Strconv.{has_prefix}
use axia_network_v2_magellan.Db.Exec.{
  Value, text, num, bytes, flag, time, Cond, equals, differs, Stmt, insert_into, update, Session,
  Exec,
}
use axia_network_v2_magellan.Db.Exec
use axia_network_v2_magellan.Db.Rows.{
  Transactions, OutputsRedeeming, Outputs, Addresses, AddressChain, OutputAddresses, AddressBech32,
  OutputAddressAccumulate, OutputTxsAccumulate, PvmBlocks, Rewards, TransactionsValidator,
  TransactionsBlock,
}
use axia_network_v2_magellan.Db.Columns.{
  Row, accumulate_columns, outputs_columns, outputs_redeeming_columns, outputs_redeeming_sets,
  rewards_sets, signature_column, transactions_columns, transactions_sets, where_key,
}

unfoldable pub is_duplicate_entry_error : Text → Bool
is_duplicate_entry_error e = has_prefix e (codes "Error 1062: Duplicate entry")

unfoldable pub event_err : Text → Bool → Text → Text
event_err t upd e = e ++ (codes " (" ++ (t ++ ((if upd then codes " upd" else []) ++ codes ")")))

module _ {D : Type 0} (s : Session D) where
  -- The ends of the methods: an error that is let pass, and one that is not.
  unfoldable pub tolerant : Text → Option Text → D → Result Text Unit × D
  tolerant table none d = (ok tt, d)
  tolerant table (some e) d =
      if is_duplicate_entry_error e then (ok tt, d) else (err (event_err table false e), d)

  unfoldable pub strict : Text → Option Text → D → Result Text Unit × D
  strict table none d = (ok tt, d)
  strict table (some e) d = (err (event_err table true e), d)

  unfoldable pub exec_tolerant : Text → Stmt → Exec D Unit
  exec_tolerant table st d = let (e, d') = s.exec st d in tolerant table e d'

  unfoldable pub exec_strict : Text → Stmt → Exec D Unit
  exec_strict table st d = let (e, d') = s.exec st d in strict table e d'

  -- `key` and `rest` are the columns of a new row, `sets` those that an update writes, and
  -- `reported` is the table that an error of the update names.
  unfoldable pub upsert : Text → Text → (key rest sets : Row) → Bool → Exec D Unit
  upsert table reported key rest sets upd =
      Exec.◌>>=◌ (exec_tolerant table (insert_into table (key ++ rest))) (λ _.
        if upd then exec_strict reported (update table sets (where_key key)) else Exec.pure tt)

  unfoldable pub insert_transactions : Transactions → Bool → Exec D Unit
  insert_transactions v upd =
      let t = codes "avm_transactions" in
      upsert t t ((codes "id", text v.id) ∷ []) (transactions_columns v) (transactions_sets v) upd

  unfoldable pub insert_outputs_redeeming : OutputsRedeeming → Bool → Exec D Unit
  insert_outputs_redeeming v upd =
      let t = codes "avm_outputs_redeeming" in
      upsert t t ((codes "id", text v.id) ∷ []) (outputs_redeeming_columns v)
        (outputs_redeeming_sets v) upd

  unfoldable pub insert_outputs : Outputs → Bool → Exec D Unit
  insert_outputs v upd =
      let t = codes "avm_outputs" in
      upsert t t ((codes "id", text v.id) ∷ []) (outputs_columns v) (outputs_columns v) upd

  unfoldable pub insert_addresses : Addresses → Bool → Exec D Unit
  insert_addresses v upd =
      let t = codes "addresses" in
      upsert t t ((codes "address", text v.address) ∷ [])
        ((codes "public_key", bytes (some v.public_key))
          ∷ (codes "created_at", time v.created_at)
          ∷ (codes "updated_at", time v.updated_at)
          ∷ [])
        ((codes "public_key", bytes (some v.public_key))
          ∷ (codes "updated_at", time v.updated_at)
          ∷ (codes "created_at", time v.created_at)
          ∷ [])
        upd

  unfoldable pub insert_address_chain : AddressChain → Bool → Exec D Unit
  insert_address_chain v upd =
      let t = codes "address_chain" in
      upsert t t ((codes "address", text v.address) ∷ (codes "chain_id", text v.chain_id) ∷ [])
        ((codes "created_at", time v.created_at) ∷ (codes "updated_at", time v.updated_at) ∷ [])
        ((codes "updated_at", time v.updated_at) ∷ (codes "created_at", time v.created_at) ∷ []) upd

  -- A nil signature is left out of both statements.
  unfoldable pub insert_output_addresses : OutputAddresses → Bool → Exec D Unit
  insert_output_addresses v upd =
      let t = codes "avm_output_addresses" in
      let sig = signature_column v.redeeming_signature in
      upsert t t ((codes "output_id", text v.output_id) ∷ (codes "address", text v.address) ∷ [])
        ((codes "created_at", time v.created_at) ∷ (codes "updated_at", time v.updated_at) ∷ sig)
        (sig
          ++ ((codes "updated_at", time v.updated_at)
              ∷ (codes "created_at", time v.created_at)
              ∷ []))
        upd

  unfoldable pub update_output_addresses : OutputAddresses → Exec D Unit
  update_output_addresses v =
      let t = codes "avm_output_addresses" in
      exec_strict t (
        update t
          ((codes "redeeming_signature", bytes v.redeeming_signature)
            ∷ (codes "updated_at", time v.updated_at)
            ∷ [])
          (where_key
            ((codes "output_id", text v.output_id) ∷ (codes "address", text v.address) ∷ [])))

  unfoldable pub insert_address_bech32 : AddressBech32 → Bool → Exec D Unit
  insert_address_bech32 v upd =
      let t = codes "addresses_bech32" in
      let rest =
        (codes "bech32_address", text v.bech32_address)
        ∷ (codes "updated_at", time v.updated_at)
        ∷ [] in
      upsert t t ((codes "address", text v.address) ∷ []) rest rest upd

  -- An error of the update is reported for another table.
  unfoldable pub insert_output_address_accumulate_out : OutputAddressAccumulate → Bool → Exec D Unit
  insert_output_address_accumulate_out v upd =
      upsert (codes "output_addresses_accumulate_out") (codes "addresses_bech32")
        ((codes "id", text v.id) ∷ []) (accumulate_columns v) (accumulate_columns v) upd

  unfoldable pub insert_output_address_accumulate_in : OutputAddressAccumulate → Bool → Exec D Unit
  insert_output_address_accumulate_in v upd =
      upsert (codes "output_addresses_accumulate_in") (codes "addresses_bech32")
        ((codes "id", text v.id) ∷ []) (accumulate_columns v) (accumulate_columns v) upd

  unfoldable pub update_output_address_accumulate_in_outputs_processed : Text → Exec D Unit
  update_output_address_accumulate_in_outputs_processed id =
      let t = codes "output_addresses_accumulate_in" in
      exec_tolerant t (
        update t ((codes "output_processed", num 1) ∷ [])
          (equals (codes "output_id") (text id) ∷ differs (codes "output_processed") (num 1) ∷ []))

  unfoldable pub insert_output_txs_accumulate : OutputTxsAccumulate → Exec D Unit
  insert_output_txs_accumulate v =
      let t = codes "output_txs_accumulate" in
      exec_tolerant t (
        insert_into t (
          (codes "id", text v.id)
          ∷ (codes "chain_id", text v.chain_id)
          ∷ (codes "asset_id", text v.asset_id)
          ∷ (codes "address", text v.address)
          ∷ (codes "transaction_id", text v.transaction_id)
          ∷ (codes "created_at", time v.created_at)
          ∷ []))

  unfoldable pub insert_pvm_blocks : PvmBlocks → Bool → Exec D Unit
  insert_pvm_blocks v upd =
      let t = codes "pvm_blocks" in
      upsert t t ((codes "id", text v.id) ∷ [])
        ((codes "chain_id", text v.chain_id)
          ∷ (codes "type", num v.block_type)
          ∷ (codes "parent_id", text v.parent_id)
          ∷ (codes "created_at", time v.created_at)
          ∷ (codes "serialization", bytes (some v.serialization))
          ∷ (codes "height", num v.height)
          ∷ [])
        ((codes "chain_id", text v.chain_id)
          ∷ (codes "type", num v.block_type)
          ∷ (codes "parent_id", text v.parent_id)
          ∷ (codes "serialization", bytes (some v.serialization))
          ∷ (codes "height", num v.height)
          ∷ (codes "created_at", time v.created_at)
          ∷ [])
        upd

  unfoldable pub insert_rewards : Rewards → Bool → Exec D Unit
  insert_rewards v upd =
      let t = codes "rewards" in
      upsert t t ((codes "id", text v.id) ∷ [])
        (rewards_sets v ++ ((codes "processed", num v.processed) ∷ [])) (rewards_sets v) upd

  unfoldable pub update_rewards_processed : Rewards → Exec D Unit
  update_rewards_processed v =
      let t = codes "rewards" in
      exec_tolerant t (
        update t ((codes "processed", num v.processed) ∷ [])
          (where_key ((codes "id", text v.id) ∷ [])))

  unfoldable pub insert_transactions_validator : TransactionsValidator → Bool → Exec D Unit
  insert_transactions_validator v upd =
      let t = codes "transactions_validator" in
      let rest =
        (codes "node_id", text v.node_id)
        ∷ (codes "start", num v.start)
        ∷ (codes "end", num v.end_time)
        ∷ (codes "created_at", time v.created_at)
        ∷ [] in
      upsert t t ((codes "id", text v.id) ∷ []) rest rest upd

  unfoldable pub insert_transactions_block : TransactionsBlock → Bool → Exec D Unit
  insert_transactions_block v upd =
      let t = codes "transactions_block" in
      let rest =
        (codes "tx_block_id", text v.tx_block_id) ∷ (codes "created_at", time v.created_at) ∷ [] in
      upsert t t ((codes "id", text v.id) ∷ []) rest rest upd
