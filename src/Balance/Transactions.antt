-- ===== src/Balance/Transactions.antt =====
-- balance/balance_manager.go: the accumulation of transactions, and the triggers of the manager.
use axia_network_v2_magellan.Prelude.{ℕ, Bool, true, false, List, [], ◌∷◌, Option, none, some, map}
use axia_network_v2_magellan.Prelude.Dict.{insert, lookup}
use axia_network_v2_magellan.Prelude.Text.{Text, codes, text_eq}
use axia_network_v2_magellan.Prelude.Result.{err}
use axia_network_v2_magellan.Db.Exec.{
  Exec, equals, for_each, gets, lift, num, raw, text, time, update, ◌>>=◌, ◌>>◌,
}
use axia_network_v2_magellan.Db.Rows.{OutputTxsAccumulate}
use axia_network_v2_magellan.Db.Balances.{insert_accumulate_balances_transactions}
use axia_network_v2_magellan.Axc.Node.{Node}
use axia_network_v2_magellan.Axc.Outputs.{compute_id}
use axia_network_v2_magellan.Balance.{process_rows}
use axia_network_v2_magellan.Balance.Database.{Database, exec, transaction}
use axia_network_v2_magellan.Balance.Outputs.{first_second, is_locked, some_locked}

module _ {D : Type 0} (db : Database D) (node : Node) where
  -- The row of a transaction is marked, and the count of its balance, made if it is missing, grows by one.
  unfoldable pub process_transactions_base : OutputTxsAccumulate → Exec D Unit
  process_transactions_base row = do
    exec db (
        update (codes "output_txs_accumulate") ((codes "processed", num 1) ∷ [])
          (equals (codes "id") (text row.id) ∷ []))
    id ← lift (compute_id node (row.chain_id ∷ row.asset_id ∷ row.address ∷ []))
    insert_accumulate_balances_transactions db.tx (record {
      id = id;
      chain_id = row.chain_id;
      asset_id = row.asset_id;
      address = row.address;
      transaction_count = [];
      updated_at = first_second;
    })
    locked ← db.lock_balance (codes "accumulate_balances_transactions") id
    lift (is_locked id locked)
    updated ← gets db.tx.now
    exec db (
        update (codes "accumulate_balances_transactions")
          ((codes "transaction_count", raw (codes "transaction_count+1"))
            ∷ (codes "updated_at", time updated)
            ∷ [])
          (equals (codes "id") (text id) ∷ []))

  -- `workRows[row.ID]`, as in Balance/Outputs.antt
  abbrev pub process_tx_row : Option OutputTxsAccumulate → Exec D Unit
  process_tx_row none = lift (err (codes "invalid memory address or nil pointer dereference"))
  process_tx_row (some row) = process_transactions_base row

  unfoldable pub process_transactions_post :
      List (Text × OutputTxsAccumulate) → List Text → Exec D Unit
  process_transactions_post work_rows work_rows_id = transaction db (do
    rowdata ← db.lock_unprocessed (codes "output_txs_accumulate") work_rows_id
    some_locked rowdata (for_each (λ id. process_tx_row (lookup id work_rows)) rowdata))

  -- `trows`, as the loop fills it
  unfoldable pub tx_map :
      List (Text × OutputTxsAccumulate)
      → List OutputTxsAccumulate
      → List (Text × OutputTxsAccumulate)
  tx_map trows [] = trows
  tx_map trows (row ∷ rows) = tx_map (insert row.id row trows) rows

  abbrev pub process_tx_group : List OutputTxsAccumulate → Exec D Unit
  process_tx_group rows =
      process_transactions_post (tx_map [] rows) (map (λ (r : OutputTxsAccumulate). r.id) rows)

  -- `processTransactions`, with the retries of a group given
  unfoldable pub process_transactions : (Exec D Unit → Exec D Unit) → Exec D ℕ
  process_transactions repeated =
      process_rows db.transactions_to_process (λ g. repeated (process_tx_group g))

-- `managerChannels`: whether each channel, of one place, has a trigger
pub record ManagerChannels : Type 0 where
  pub ins : Bool
  pub outs : Bool
  pub txs : Bool

-- `Exec`: a trigger is put in each channel that has none. A manager that is not enabled does nothing.
unfoldable pub trigger : Bool → List ManagerChannels → List ManagerChannels
trigger false channels = channels
trigger true channels =
    map (λ (c : ManagerChannels). record { ins = true; outs = true; txs = true }) channels
