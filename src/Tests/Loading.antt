-- ===== src/Tests/Loading.antt =====
-- A transaction that is written and loaded again, in a table in memory.
use axia_network_v2_magellan.Prelude.{true, List, ◌∷◌, Option, none, some, ◌≡◌, refl, arith}
use axia_network_v2_magellan.Prelude.Dict.{lookup}
use axia_network_v2_magellan.Prelude.Text.{Text, codes, text_eq}
use axia_network_v2_magellan.Prelude.Result.{Result, ok, err}
use axia_network_v2_magellan.Db.Exec.{text}
use axia_network_v2_magellan.Db.Columns.{Row}
use axia_network_v2_magellan.Db.OneTable.{one_table}
use axia_network_v2_magellan.Db.Persist.{insert_transactions}
use axia_network_v2_magellan.Db.Rewrite.{id_key}
use axia_network_v2_magellan.Db.Queries.{Reads}
use axia_network_v2_magellan.Db.Queries.Ledger.{query_transactions}
use axia_network_v2_magellan.Db.Queries.RoundTrip.{
  IsReadable, query-insert_transactions, transactions_selected,
}
use axia_network_v2_magellan.Tests.DbRows.{first_text, id_rows-IsTable, old_tx, only_text, paid_tx}

-- The row with its id in front
abbrev found : Text → Option Row → Result Text Row
found k none = err (codes "sql: no rows in result set")
found k (some row) = ok ((codes "id", text k) ∷ row)

abbrev found_at : Option Text → List (Text × Row) → Result Text Row
found_at none d = err (codes "unsupported")
found_at (some k) d = found k (lookup k d)

abbrev rows : Reads (List (Text × Row))
rows = record { load_one = λ t columns conds d. found_at (only_text conds) d }

rows-IsReadable : (t : Text) (columns : List Text) → IsReadable rows t columns id_key lookup
unfolding lookup
rows-IsReadable t columns = record {
  loads = λ k row d e. (
    (codes "id", text k) ∷ row,
    rw e refl,
    (λ c x h q. ground (arith, q)),
    λ c h q. ground (arith, q),
  );
}

query-insert_transactions_example :
    query_transactions rows paid_tx
      (insert_transactions
        (one_table first_text only_text (codes "avm_transactions"))
        paid_tx
        true
        old_tx).1
    ≡ ok paid_tx
query-insert_transactions_example =
    query-insert_transactions (one_table first_text only_text (codes "avm_transactions")) rows
      lookup (id_rows-IsTable (codes "avm_transactions"))
      (rows-IsReadable (codes "avm_transactions") transactions_selected) paid_tx old_tx
