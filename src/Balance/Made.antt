-- ===== src/Balance/Made.antt =====
-- The balances that are missing: balance/balance_manager.go on a database that reports no errors of its own.
use axia_network_v2_magellan.Prelude.{true, [], ◌∷◌, Option, none, some, ◌≡◌}
use axia_network_v2_magellan.Prelude.Text.{Text, codes, text_eq}
use axia_network_v2_magellan.Prelude.Result.{Result, ok}
use axia_network_v2_magellan.Db.Columns.{Row}
use axia_network_v2_magellan.Db.Exec.{Exec, insert_into, update, equals, text}
use axia_network_v2_magellan.Db.Persist.{is_duplicate_entry_error}
use axia_network_v2_magellan.Axc.Node.{Node}
use axia_network_v2_magellan.Balance.Database.{Database, ProcessType, balance_table, exec}
use axia_network_v2_magellan.Balance.Ledger.{View}

-- The outcome of an insert that is no error, or that of a row that is there
abbrev pub IsTolerated : Option Text → Type 0
IsTolerated none = Unit
IsTolerated (some e) = is_duplicate_entry_error e ≡ true

-- A database whose statements succeed, but for the inserts of rows that are there: then a balance is there
-- after its insert, and one that is there is found and locked.
pub record IsReliable {D : Type 0} (db : Database D) (typ : ProcessType) (inside : View D)
    : Type 0 where
  pub inserts :
      (t : Text) (pairs : Row) (d : D) → IsTolerated (db.tx.exec (insert_into t pairs) d).0
  pub makes :
      (id : Text) (pairs : Row) (d : D)
      → inside.has id
          (db.tx.exec (insert_into (balance_table typ) ((codes "id", text id) ∷ pairs)) d).1
        ≡ true
  pub locks :
      (id : Text) (d : D)
      → inside.has id d ≡ true
      → db.lock_balance (balance_table typ) id d ≡ (ok (id ∷ []), d)
  pub updates :
      (t : Text) (sets : Row) (id : Text) (d : D)
      → (db.tx.exec (update t sets (equals (codes "id") (text id) ∷ [])) d).0 ≡ none

module _ {D : Type 0} (db : Database D) (node : Node) (typ : ProcessType) (inside : View D)
    (reliable : IsReliable db typ inside) where
  abbrev Makes : ProcessType → Type 0
  Makes t =
      (id : Text) (pairs : Row) (d : D)
      → inside.has id
          (db.tx.exec (insert_into (balance_table t) ((codes "id", text id) ∷ pairs)) d).1
        ≡ true
