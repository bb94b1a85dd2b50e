-- ===== src/Balance/Database.antt =====
-- balance/balance_manager.go: what a handler asks of the database. The queries are parameters; their rows
-- are those of db/dbmodel.go.
use axia_network_v2_magellan.Prelude.{Bool, true, false, List, Option, none, some}
use axia_network_v2_magellan.Prelude.Text.{Text, codes}
use axia_network_v2_magellan.Prelude.Result.{Result, ok, err}
use axia_network_v2_magellan.Db.Exec.{Exec, Session, Stmt}
use axia_network_v2_magellan.Db.Rows.{OutputAddressAccumulate, OutputTxsAccumulate}
use axia_network_v2_magellan.Db.Balances.{AccumulateBalancesAmount}

pub data ProcessType : Type 0 where
  type_in type_out : ProcessType

-- `outTable` and `balanceTable`
unfoldable pub out_table : ProcessType → Text
out_table type_out = codes "output_addresses_accumulate_out"
out_table type_in = codes "output_addresses_accumulate_in"

unfoldable pub balance_table : ProcessType → Text
balance_table type_out = codes "accumulate_balances_received"
balance_table type_in = codes "accumulate_balances_sent"

-- A connection: `begin`, `commit` and `rollback` of a transaction, the statements in it, and the queries
-- in it. `lock_unprocessed` gives the ids, of those asked for, of the rows of a table that are not yet
-- processed, `output_balances` the sums of an output for one of its addresses, and `lock_balance` the
-- ids of the balances of one id.
pub record Database (D : Type 0) : Type 0 where
  pub begin : D → Option Text × D
  pub commit : D → Option Text × D
  pub rollback : D → D
  pub tx : Session D
  pub lock_unprocessed : Text → List Text → Exec D (List Text)
  pub output_balances : Text → Text → Exec D (List AccumulateBalancesAmount)
  pub lock_balance : Text → Text → Exec D (List Text)
  pub outputs_to_process : Bool → ProcessType → Exec D (List OutputAddressAccumulate)
  pub transactions_to_process : Exec D (List OutputTxsAccumulate)

abbrev pub no_error : Option Text → Result Text Unit
no_error none = ok tt
no_error (some e) = err e

module _ {D : Type 0} (db : Database D) where
  -- A statement whose error is returned as it is
  unfoldable pub exec : Stmt → Exec D Unit
  exec st d = let (e, d') = db.tx.exec st d in (no_error e, d')

  -- After the body of a transaction: it is committed if the body says so, and what is not committed is
  -- rolled back.
  abbrev pub committed : Option Text × D → Result Text Unit × D
  committed (e, d) = (no_error e, db.rollback d)

  abbrev pub finish : Result Text Bool × D → Result Text Unit × D
  finish (err e, d) = (err e, db.rollback d)
  finish (ok b, d) = elim b [ true ↦ committed (db.commit d) | false ↦ (ok tt, db.rollback d) ]

  abbrev pub begun : Exec D Bool → Option Text × D → Result Text Unit × D
  begun body (none, d) = finish (body d)
  begun body (some e, d) = (err e, d)

  -- `Begin`, with the deferred `RollbackUnlessCommitted`; the result of `body` tells whether it comes to
  -- the `Commit` at its end.
  unfoldable pub transaction : Exec D Bool → Exec D Unit
  transaction body d = begun body (db.begin d)
