-- ===== src/Db/Table.antt =====
-- What the upserts of db/dbmodel.go rely on of one table of the database: it has one unique key, and
-- a statement about it fails only where an insert meets a row of that key.
use axia_network_v2_magellan.Prelude.{◌++◌, Option, none, some, ◌≡◌, ◌≢◌}
use axia_network_v2_magellan.Prelude.Dict.{lookup}
use axia_network_v2_magellan.Prelude.Text.{Text, codes, text_eq}
use axia_network_v2_magellan.Db.Exec.{Value, insert_into, update, Session}
use axia_network_v2_magellan.Db.Columns.{Row, where_key}

abbrev pub override : Option Value → Option Value → Option Value
override none old = old
override (some x) old = some x

-- The columns that `pairs` names have its values in `r`.
abbrev pub Holds : Row → Row → Type 0
Holds pairs r = (c : Text) (x : Value) → lookup c pairs ≡ some x → lookup c r ≡ some x

-- `key k` are the key columns of the row `k`, and `find` reads a row.
pub record IsTable {D K : Type 0} (s : Session D) (t : Text) (key : K → Row)
    (find : K → D → Option Row) : Type 0 where
  pub insert_new :
      (k : K) (rest : Row) (d : D)
      → find k d ≡ none
      → ((s.exec (insert_into t (key k ++ rest)) d).0 ≡ none)
        × (r : Row) × (find k (s.exec (insert_into t (key k ++ rest)) d).1 ≡ some r)
        × Holds (key k ++ rest) r
  pub insert_duplicate :
      (k : K) (rest r : Row) (d : D)
      → find k d ≡ some r
      → (message : Text) × (s.exec (insert_into t (key k ++ rest)) d
          ≡ (some (codes "Error 1062: Duplicate entry" ++ message), d))
  pub update_row :
      (k : K) (sets r : Row) (d : D)
      → find k d ≡ some r
      → ((s.exec (update t sets (where_key (key k))) d).0 ≡ none)
        × (r' : Row) × (find k (s.exec (update t sets (where_key (key k))) d).1 ≡ some r')
        × ((c : Text) → lookup c r' ≡ override (lookup c sets) (lookup c r))
  pub insert_others :
      (k j : K) (rest : Row) (d : D)
      → j ≢ k
      → find j (s.exec (insert_into t (key k ++ rest)) d).1 ≡ find j d
  pub update_others :
      (k j : K) (sets : Row) (d : D)
      → j ≢ k
      → find j (s.exec (update t sets (where_key (key k))) d).1 ≡ find j d
