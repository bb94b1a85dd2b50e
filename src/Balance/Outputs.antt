-- ===== src/Balance/Outputs.antt =====
-- balance/balance_manager.go: the accumulation of outputs.
use axia_network_v2_magellan.Prelude.{
  ℕ, Bool, true, false, List, [], ◌∷◌, ◌++◌, Option, none, some, if◌then◌else◌, map,
}
use axia_network_v2_magellan.Prelude.Dict.{lookup, insert}
use axia_network_v2_magellan.Prelude.Int.{pos}
use axia_network_v2_magellan.Prelude.Text.{Text, codes, text_eq}
use axia_network_v2_magellan.Prelude.Eq.{◌==◌}
use axia_network_v2_magellan.Prelude.Result.{Result, ok, err}
use axia_network_v2_magellan.Params.Query.{Time}
use axia_network_v2_magellan.Db.Exec.{
  Exec, equals, for_each, gets, lift, num, pure, raw, text, time, update, ◌>>=◌, ◌>>◌,
}
use axia_network_v2_magellan.Db.Rows.{OutputAddressAccumulate}
use axia_network_v2_magellan.Db.Persist.{insert_output_txs_accumulate}
use axia_network_v2_magellan.Db.Balances.{
  AccumulateBalancesAmount, insert_accumulate_balances_received, insert_accumulate_balances_sent,
}
use axia_network_v2_magellan.Axc.Node.{Node}
use axia_network_v2_magellan.Axc.Outputs.{compute_id}
use axia_network_v2_magellan.Balance.{process_rows}
use axia_network_v2_magellan.Balance.Database.{
  Database, ProcessType, balance_table, exec, out_table, transaction, type_in, type_out,
}

-- `time.Unix(1, 0)`
abbrev pub first_second : Time
first_second = record { sec = pos 1; nsec = 0 }

-- `AccumulateBalancesAmount.ComputeID`
unfoldable pub balance_id : Node → AccumulateBalancesAmount → Result Text Text
balance_id node b = compute_id node (b.chain_id ∷ b.asset_id ∷ b.address ∷ [])

-- The balance's row, if it is missing
unfoldable pub insert_balance :
    {D : Type 0} → Database D → ProcessType → AccumulateBalancesAmount → Exec D Unit
insert_balance db type_out b = insert_accumulate_balances_received db.tx b
insert_balance db type_in b = insert_accumulate_balances_sent db.tx b

-- `trows`, as the loop fills it
unfoldable pub to_map :
    List (Text × OutputAddressAccumulate)
    → List OutputAddressAccumulate
    → List (Text × OutputAddressAccumulate)
to_map trows [] = trows
to_map trows (row ∷ rows) = to_map (insert row.id row trows) rows

-- The row that is to be locked: it is there, and the first one has the id.
abbrev pub is_locked : Text → List Text → Result Text Unit
is_locked id [] = err (codes "balancesLocked failed")
is_locked id (brow ∷ rest) = if brow == id then ok tt else err (codes "balancesLocked failed")

-- The work, if a row was locked
abbrev pub some_locked : {D : Type 0} → List Text → Exec D Unit → Exec D Bool
some_locked [] work = pure false
some_locked (id ∷ ids) work = do work; pure true

module _ {D : Type 0} (db : Database D) (node : Node) (typ : ProcessType) where
  -- The loop over the balances of an output
  unfoldable pub add_balance : OutputAddressAccumulate → AccumulateBalancesAmount → Exec D Unit
  add_balance row b = do
    created ← gets db.tx.now
    txs_id ← lift (compute_id node (b.chain_id ∷ b.asset_id ∷ b.address ∷ row.transaction_id ∷ []))
    insert_output_txs_accumulate db.tx (record {
      id = txs_id;
      chain_id = b.chain_id;
      asset_id = b.asset_id;
      address = b.address;
      transaction_id = row.transaction_id;
      processed = 0;
      created_at = created;
    })
    id ← lift (balance_id node b)
    insert_balance db typ (record b { id = id; updated_at = first_second })
    locked ← db.lock_balance (balance_table typ) id
    lift (is_locked id locked)
    updated ← gets db.tx.now
    exec db (
        update (balance_table typ)
          ((codes "utxo_count", raw (codes "utxo_count+1"))
            ∷ (codes "total_amount", raw (codes "total_amount+" ++ b.total_amount))
            ∷ (codes "updated_at", time updated)
            ∷ [])
          (equals (codes "id") (text id) ∷ []))

  abbrev pub some_balances : List AccumulateBalancesAmount → Result Text Unit
  some_balances [] = err (codes "invalid balance")
  some_balances (b ∷ bs) = ok tt

  unfoldable pub process_outputs_base : OutputAddressAccumulate → Exec D Unit
  process_outputs_base row = do
    exec db (
        update (out_table typ) ((codes "processed", num 1) ∷ [])
          (equals (codes "id") (text row.id) ∷ []))
    balances ← db.output_balances row.output_id row.address
    lift (some_balances balances)
    for_each (add_balance row) balances

  -- `workRows[row.ID]`; an id that is not in the map would be a nil row, and panic.
  abbrev pub process_row : Option OutputAddressAccumulate → Exec D Unit
  process_row none = lift (err (codes "invalid memory address or nil pointer dereference"))
  process_row (some row) = process_outputs_base row

  unfoldable pub process_locked : List (Text × OutputAddressAccumulate) → List Text → Exec D Unit
  process_locked work_rows ids = for_each (λ id. process_row (lookup id work_rows)) ids

  unfoldable pub process_outputs_post :
      List (Text × OutputAddressAccumulate) → List Text → Exec D Unit
  process_outputs_post work_rows work_rows_id = transaction db (do
    rowdata ← db.lock_unprocessed (out_table typ) work_rows_id
    some_locked rowdata (process_locked work_rows rowdata))

  abbrev pub process_group : List OutputAddressAccumulate → Exec D Unit
  process_group rows =
      process_outputs_post (to_map [] rows) (map (λ (r : OutputAddressAccumulate). r.id) rows)

  -- `processOutputs`, with the retries of a group given
  unfoldable pub process_outputs : (Exec D Unit → Exec D Unit) → Bool → Exec D ℕ
  process_outputs repeated output_processed =
      process_rows (db.outputs_to_process output_processed typ) (λ g. repeated (process_group g))
