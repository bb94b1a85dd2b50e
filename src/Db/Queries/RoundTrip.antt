-- ===== src/Db/Queries/RoundTrip.antt =====
-- Loading a row after it was written: the queries and the upserts of db/dbmodel.go together.
use axia_network_v2_magellan.Prelude.{
  true, All, List, [], ◌∷◌, Option, none, some, ◌≡◌, refl, ap, ◌∙◌,
}
use axia_network_v2_magellan.Prelude.Dict.{lookup}
use axia_network_v2_magellan.Prelude.Eq.{elem}
use axia_network_v2_magellan.Prelude.Text.{Text, codes, text_eq, text_beq}
use axia_network_v2_magellan.Prelude.Result.{ok}
use axia_network_v2_magellan.Db.Exec.{Value, text, Session}
use axia_network_v2_magellan.Db.Rows.{Transactions}
use axia_network_v2_magellan.Db.Columns.{Row, where_key, transactions_columns}
use axia_network_v2_magellan.Db.Persist.{insert_transactions}
use axia_network_v2_magellan.Db.Table.{IsTable}
use axia_network_v2_magellan.Db.Rewrite.{Stored, id_key, insert_transactions-Stored}
use axia_network_v2_magellan.Db.Queries.{Reads}
use axia_network_v2_magellan.Db.Queries.Ledger.{query_transactions, transactions_of}

-- What a query relies on of one table: a row that is there is loaded, with the key that it is asked for
-- by, and with its other columns as they are.
pub record IsReadable {D K : Type 0} (s : Reads D) (t : Text) (columns : List Text) (key : K → Row)
    (find : K → D → Option Row) : Type 0 where
  pub loads :
      (k : K) (row : Row) (d : D)
      → find k d ≡ some row
      → (got : Row) × (s.load_one t columns (where_key (key k)) d ≡ ok got)
        × ((c : Text) (x : Value)
            → elem c columns ≡ true
            → lookup c (key k) ≡ some x
            → lookup c got ≡ some x)
        × ((c : Text)
            → elem c columns ≡ true
            → lookup c (key k) ≡ none
            → lookup c got ≡ lookup c row)

abbrev pub transactions_selected : List Text
transactions_selected =
    codes "id"
    ∷ codes "chain_id"
    ∷ codes "type"
    ∷ codes "memo"
    ∷ codes "created_at"
    ∷ codes "canonical_serialization"
    ∷ codes "txfee"
    ∷ codes "genesis"
    ∷ codes "network_id"
    ∷ []

-- The fields are filled from the columns.
transactions_of-Stored :
    (v : Transactions) (got : Row)
    → lookup (codes "id") got ≡ some (text v.id)
    → Stored (transactions_columns v) got
    → transactions_of got ≡ v
transactions_of-Stored v got i a =
    rw
      (
        i, a.0, a.1.0, a.1.1.0, a.1.1.1.0, a.1.1.1.1.0, a.1.1.1.1.1.0, a.1.1.1.1.1.1.0,
        a.1.1.1.1.1.1.1.0,
      )
      refl

-- Selected columns are loaded as they are stored.
Stored-loaded :
    (names : List Text) (keys columns row got : Row)
    → ((c : Text) → elem c names ≡ true → lookup c keys ≡ none → lookup c got ≡ lookup c row)
    → All (λ (p : Text × Value). (elem p.0 names ≡ true) × (lookup p.0 keys ≡ none)) columns
    → Stored columns row
    → Stored columns got
Stored-loaded names keys [] row got same m a = tt
Stored-loaded names keys ((c, x) ∷ columns) row got same m a =
    (same c m.0.0 m.0.1 ∙ a.0, Stored-loaded names keys columns row got same m.1 a.1)

transactions_columns-selected :
    (v : Transactions)
    → All
        (λ (p : Text × Value).
          (elem p.0 transactions_selected ≡ true) × (lookup p.0 (id_key v.id) ≡ none))
        (transactions_columns v)
unfolding elem lookup text_beq
transactions_columns-selected v = (
  (refl, refl),
  (
    (refl, refl),
    (
      (refl, refl),
      ((refl, refl), ((refl, refl), ((refl, refl), ((refl, refl), ((refl, refl), tt))))),
    ),
  ),
)

-- Where the transactions table has the laws of `IsTable` and of `IsReadable`: a transaction that was
-- written with an update, over whatever row it had, is loaded again as it was given.
pub query-insert_transactions :
    {D : Type 0} (s : Session D) (q : Reads D) (find : Text → D → Option Row)
    (h : IsTable s (codes "avm_transactions") id_key find)
    (r : IsReadable q (codes "avm_transactions") transactions_selected id_key find)
    (v : Transactions) (d : D)
    → query_transactions q v (insert_transactions s v true d).1 ≡ ok v
unfolding query_transactions
query-insert_transactions s q find h r v d =
    let d' = (insert_transactions s v true d).1 in
    let (fine, row, e, a, others) = insert_transactions-Stored s find h v d in
    let (got, l, keyed, same) = r.loads v.id row d' e in
    let i : lookup (codes "id") got ≡ some (text v.id) =
      keyed (codes "id") (text v.id) (unfold elem text_beq in refl)
        (unfold lookup text_beq in refl) in
    let b =
      Stored-loaded transactions_selected (id_key v.id) (transactions_columns v) row got same
        (transactions_columns-selected v) a in
    rw l (ap ok (transactions_of-Stored v got i b))
