-- ===== src/Db/OneTable.antt =====
-- A table in memory, as a database for which the laws of Db/Table.antt hold. `read` finds the key in the
-- columns of a new row, and `asked` in the conditions of an update.
use axia_network_v2_magellan.Prelude.{
  List, [], ◌∷◌, ◌++◌, Option, none, some, ◌≡◌, ◌≢◌, refl, arith, ◌∙◌, if◌then◌else◌,
}
use axia_network_v2_magellan.Prelude.Eq.{Eq, ◌==◌, beq_refl}
use axia_network_v2_magellan.Prelude.Dict.{lookup, insert, lookup-insert}
use axia_network_v2_magellan.Prelude.Text.{Text, codes, text_eq}
use axia_network_v2_magellan.Db.Exec.{Cond, Stmt, insert_into, update, Session}
use axia_network_v2_magellan.Db.Columns.{Row, where_key}
use axia_network_v2_magellan.Db.Table.{IsTable, override}
use axia_network_v2_magellan.Params.Query.{zero_time}

lookup-append : (c : Text) (a b : Row) → lookup c (a ++ b) ≡ override (lookup c a) (lookup c b)
unfolding lookup
lookup-append c [] b = refl
lookup-append c ((j, x) ∷ a) b = ground (arith, lookup-append c a b)

module _ {K : Type 0} ⦃e : Eq K⦄ (read : Row → Option K) (asked : List Cond → Option K) where
  abbrev pub insert_over : K → Row → Option Row → List (K × Row) → Option Text × List (K × Row)
  insert_over k pairs none d = (none, insert k pairs d)
  insert_over k pairs (some r) d = (some (codes "Error 1062: Duplicate entry"), d)

  abbrev pub update_over : K → Row → Option Row → List (K × Row) → Option Text × List (K × Row)
  update_over k sets none d = (none, d)
  update_over k sets (some r) d = (none, insert k (sets ++ r) d)

  abbrev pub insert_at : Option K → Row → List (K × Row) → Option Text × List (K × Row)
  insert_at none pairs d = (some (codes "unsupported"), d)
  insert_at (some k) pairs d = insert_over k pairs (lookup k d) d

  abbrev pub update_at : Option K → Row → List (K × Row) → Option Text × List (K × Row)
  update_at none sets d = (some (codes "unsupported"), d)
  update_at (some k) sets d = update_over k sets (lookup k d) d

  -- Statements about other tables have no effect.
  unfoldable pub run : Text → Stmt → List (K × Row) → Option Text × List (K × Row)
  run t (insert_into t' pairs) d = if t' == t then insert_at (read pairs) pairs d else (none, d)
  run t (update t' sets conds) d = if t' == t then update_at (asked conds) sets d else (none, d)

  abbrev pub one_table : Text → Session (List (K × Row))
  one_table t = record { exec = run t; now = λ d. zero_time }

  insert-others :
      (k j : K) (r : Row) (d : List (K × Row)) → j ≢ k → lookup j (insert k r d) ≡ lookup j d
  insert-others k j r d h = lookup-insert k j r d ∙ ground (arith, e.beq_iff k j, h)

  insert_over-others :
      (k j : K) (pairs : Row) (o : Option Row) (d : List (K × Row))
      → j ≢ k
      → lookup j (insert_over k pairs o d).1 ≡ lookup j d
  insert_over-others k j pairs none d h = insert-others k j pairs d h
  insert_over-others k j pairs (some r) d h = refl

  update_over-others :
      (k j : K) (sets : Row) (o : Option Row) (d : List (K × Row))
      → j ≢ k
      → lookup j (update_over k sets o d).1 ≡ lookup j d
  update_over-others k j sets none d h = refl
  update_over-others k j sets (some r) d h = insert-others k j (sets ++ r) d h

  pub one_table-IsTable :
      (t : Text) (key : K → Row)
      → ((k : K) (rest : Row) → read (key k ++ rest) ≡ some k)
      → ((k : K) → asked (where_key (key k)) ≡ some k)
      → IsTable (one_table t) t key lookup
  unfolding run
  one_table-IsTable t key reads asks = record {
    insert_new = λ k rest d q.
        rw (beq_refl t, reads k rest, q)
          (
            refl,
            key k ++ rest,
            lookup-insert k k (key k ++ rest) d ∙ rw (beq_refl k) refl,
            λ c' x h. h,
          );
    insert_duplicate = λ k rest r d q. ([], rw (beq_refl t, reads k rest, q) refl);
    update_row = λ k sets r d q.
        rw (beq_refl t, asks k, q)
          (
            refl,
            sets ++ r,
            lookup-insert k k (sets ++ r) d ∙ rw (beq_refl k) refl,
            λ c'. lookup-append c' sets r,
          );
    insert_others = λ k j rest d h.
        rw (beq_refl t, reads k rest) (insert_over-others k j (key k ++ rest) (lookup k d) d h);
    update_others =
        λ k j sets d h. rw (beq_refl t, asks k) (update_over-others k j sets (lookup k d) d h);
  }
