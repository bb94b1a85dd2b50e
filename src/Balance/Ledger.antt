-- ===== src/Balance/Ledger.antt =====
-- What the accumulation of outputs relies on of the database: what a transaction sees inside, what the
-- others see of it, and which statements change what.
use axia_network_v2_magellan.Prelude.{
  ℕ, ◌+◌, Bool, true, ◌||◌, ◌&&◌, not, List, [], ◌∷◌, ◌++◌, none, some, if◌then◌else◌, ◌≡◌,
}
use axia_network_v2_magellan.Prelude.Eq.{◌==◌, elem}
use axia_network_v2_magellan.Prelude.Text.{Text, codes, text_eq}
use axia_network_v2_magellan.Prelude.Result.{ok}
use axia_network_v2_magellan.Db.Exec.{Stmt, equals, insert_into, num, raw, text, time, update}
use axia_network_v2_magellan.Db.Columns.{Row}
use axia_network_v2_magellan.Params.Query.{Time}
use axia_network_v2_magellan.Prelude.Dict.{lookup}
use axia_network_v2_magellan.Db.Balances.{AccumulateBalancesAmount}
use axia_network_v2_magellan.Balance.Database.{Database, ProcessType, balance_table, out_table}

-- Whether an id has no unprocessed row, whether an id has a balance, and the total amount of the balance
-- of an id, 0 if it has none
pub record View (D : Type 0) : Type 0 where
  pub has : Text → D → Bool
  pub processed : Text → D → Bool
  pub total : Text → D → ℕ

-- From `d` to `d'`, what `v` shows of the rows `marks` has become processed, and each balance has grown by
-- its credit. Nothing else has changed.
pub record Books {D : Type 0} (v : View D) (marks : List Text) (credit : Text → ℕ) (d d' : D)
    : Type 0 where
  pub processed : (id : Text) → v.processed id d' ≡ (elem id marks || v.processed id d)
  pub total : (id : Text) → v.total id d' ≡ v.total id d + credit id

abbrev pub nothing : Text → ℕ
nothing id = 0

-- The view `v` shows the same of both states.
abbrev pub Same : {D : Type 0} → View D → D → D → Type 0
Same v d d' = Books v [] nothing d d'

unfoldable pub distinct : List Text → Bool
distinct [] = true
distinct (id ∷ ids) = not (elem id ids) && distinct ids

-- `found` are the ids, of those asked for, that have an unprocessed row, each once.
abbrev pub IsFound : {D : Type 0} → List Text → View D → D → List Text → Type 0
IsFound ids v d found =
    ((id : Text) → elem id found ≡ (elem id ids && not (v.processed id d)))
    × (distinct found ≡ true)

-- `value` reads an amount, and `balances` are those of an output for one of its addresses.
pub record IsLedger {D : Type 0} (db : Database D) (typ : ProcessType) (inside outside : View D)
    (value : Text → ℕ) (balances : Text → Text → List AccumulateBalancesAmount) : Type 0 where
  pub begins :
      (d : D) (id : Text)
      → (inside.processed id (db.begin d).1 ≡ outside.processed id d)
        × (inside.total id (db.begin d).1 ≡ outside.total id d)
  pub begin_hides : (d : D) → Same outside d (db.begin d).1
  pub rollback_hides : (d : D) → Same outside d (db.rollback d)
  pub exec_hides : (st : Stmt) (d : D) → Same outside d (db.tx.exec st d).1
  pub lock_unprocessed_hides :
      (t : Text) (ids : List Text) (d : D) → Same outside d (db.lock_unprocessed t ids d).1
  pub output_balances_hides : (o a : Text) (d : D) → Same outside d (db.output_balances o a d).1
  pub lock_balance_hides : (t id : Text) (d : D) → Same outside d (db.lock_balance t id d).1
  pub commits :
      (d d' : D) (id : Text)
      → db.commit d ≡ (none, d')
      → (outside.processed id d' ≡ inside.processed id d)
        × (outside.total id d' ≡ inside.total id d)
  pub commit_fails : (e : Text) (d d' : D) → db.commit d ≡ (some e, d') → Same outside d d'
  pub marks :
      (id : Text) (d d' : D)
      → db.tx.exec
          (update
            (out_table typ)
            ((codes "processed", num 1) ∷ [])
            (equals (codes "id") (text id) ∷ []))
          d
        ≡ (none, d')
      → Books inside (id ∷ []) nothing d d'
  pub inserts_txs :
      (pairs : Row) (d : D)
      → Same inside d (db.tx.exec (insert_into (codes "output_txs_accumulate") pairs) d).1
  pub inserts_balance :
      (pairs : Row) (d : D)
      → lookup (codes "total_amount") pairs ≡ none
      → Same inside d (db.tx.exec (insert_into (balance_table typ) pairs) d).1
  -- An update adds to a balance that is there. One that is not is not updated, and that is no error.
  pub credits :
      (id amount : Text) (now : Time) (d d' : D)
      → inside.has id d ≡ true
      → db.tx.exec
          (update
            (balance_table typ)
            ((codes "utxo_count", raw (codes "utxo_count+1"))
              ∷ (codes "total_amount", raw (codes "total_amount+" ++ amount))
              ∷ (codes "updated_at", time now)
              ∷ [])
            (equals (codes "id") (text id) ∷ []))
          d
        ≡ (none, d')
      → Books inside [] (λ j. if id == j then value amount else 0) d d'
  pub locks :
      (ids found : List Text) (d d' : D)
      → db.lock_unprocessed (out_table typ) ids d ≡ (ok found, d')
      → Same inside d d' × IsFound ids inside d found
  pub finds :
      (o a : Text) (got : List AccumulateBalancesAmount) (d d' : D)
      → db.output_balances o a d ≡ (ok got, d')
      → (got ≡ balances o a) × Same inside d d'
  -- A balance is locked, and found, if it is there.
  pub locks_balance :
      (id : Text) (found : List Text) (d d' : D)
      → db.lock_balance (balance_table typ) id d ≡ (ok found, d')
      → (elem id found ≡ inside.has id d') × Same inside d d'
