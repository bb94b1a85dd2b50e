-- ===== src/Db/Stored.antt =====
-- What the table holds after an insert method of db/dbmodel.go that is told to update.
use axia_network_v2_magellan.Prelude.{
  true, ◌++◌, Option, none, some, ◌≡◌, ◌≢◌, refl, sym, ap, ◌∙◌, inl, inr, Option-cases,
}
use axia_network_v2_magellan.Prelude.Dict.{lookup}
use axia_network_v2_magellan.Prelude.Text.{Text, codes, text_eq}
use axia_network_v2_magellan.Prelude.Result.{Result, ok}
use axia_network_v2_magellan.Strconv.{has_prefix}
use axia_network_v2_magellan.Db.Exec.{
  Value, text, num, bytes, flag, time, Stmt, insert_into, update, Session,
}
use axia_network_v2_magellan.Db.Exec
use axia_network_v2_magellan.Db.Columns.{Row, where_key}
use axia_network_v2_magellan.Db.Persist.{
  is_duplicate_entry_error, tolerant, strict, exec_tolerant, exec_strict, upsert,
}
use axia_network_v2_magellan.Db.Table.{IsTable, Holds, override}

is_duplicate :
    (m : Text) → is_duplicate_entry_error (codes "Error 1062: Duplicate entry" ++ m) ≡ true
unfolding is_duplicate_entry_error has_prefix
is_duplicate m = refl

-- The table after an upsert of the row `k`: it succeeded, the row has the columns of `sets`, its
-- others are the old ones or, in a new row, those of `rest`, and no other row is changed.
pub record Upserted {D K : Type 0} (find : K → D → Option Row) (k : K) (rest sets : Row) (d : D)
    (out : Result Text Unit × D) : Type 0 where
  pub succeeds : out.0 ≡ ok tt
  pub row : Row
  pub found : find k out.1 ≡ some row
  pub sets_Holds : Holds sets row
  pub keeps :
      (r : Row) (c : Text) → find k d ≡ some r → lookup c sets ≡ none → lookup c row ≡ lookup c r
  pub fills :
      (c : Text) (x : Value)
      → find k d ≡ none
      → lookup c sets ≡ none
      → lookup c rest ≡ some x
      → lookup c row ≡ some x
  pub others : (j : K) → j ≢ k → find j out.1 ≡ find j d

module _ {D K : Type 0} (s : Session D) (t reported : Text) (key : K → Row)
    (find : K → D → Option Row) (table : IsTable s t key find) where
  abbrev inserted : K → Row → D → D
  inserted k rest d = (s.exec (insert_into t (key k ++ rest)) d).1

  abbrev updated : K → Row → D → D
  updated k sets d = (s.exec (update t sets (where_key (key k))) d).1

  duplicate_passes :
      (st : Stmt) (m : Text) (d : D)
      → s.exec st d ≡ (some (codes "Error 1062: Duplicate entry" ++ m), d)
      → exec_tolerant s t st d ≡ (ok tt, (s.exec st d).1)
  unfolding exec_tolerant tolerant
  duplicate_passes st m d h = rw (h, is_duplicate m) refl

  -- An insert that may meet a duplicate leaves a row to update.
  tolerates :
      (k : K) (rest : Row) (d : D)
      → exec_tolerant s t (insert_into t (key k ++ rest)) d ≡ (ok tt, inserted k rest d)
  unfolding exec_tolerant tolerant
  tolerates k rest d = elim (Option-cases (find k d)) [
    | inl e ↦ let (h, r, f, g) = table.insert_new k rest d e in rw h refl
    | inr (r, e) ↦
        let (m, h) = table.insert_duplicate k rest r d e in
        duplicate_passes (insert_into t (key k ++ rest)) m d h
  ]

  updates :
      (k : K) (rest sets : Row) (d : D) (r : Row)
      → find k (inserted k rest d) ≡ some r
      → upsert s t reported (key k) rest sets true d ≡ (ok tt, updated k sets (inserted k rest d))
  unfolding upsert Exec.◌>>=◌ exec_strict strict
  updates k rest sets d r e =
      rw (tolerates k rest d)
        (let (h, r', f, g) = table.update_row k sets r (inserted k rest d) e in rw h refl)

  lookup-updated :
      (sets r row : Row)
      → ((c : Text) → lookup c row ≡ override (lookup c sets) (lookup c r))
      → Holds sets row
  lookup-updated sets r row h c x e = h c ∙ ap (λ (o : Option Value). override o (lookup c r)) e

  -- From the row that the insert leaves, by what it has of the old row and of the new one.
  from_row :
      (k : K) (rest sets : Row) (d : D) (r : Row)
      → find k (inserted k rest d) ≡ some r
      → ((old : Row) (c : Text) → find k d ≡ some old → lookup c r ≡ lookup c old)
      → (find k d ≡ none → Holds (key k ++ rest) r)
      → Upserted find k (key k ++ rest) sets d (upsert s t reported (key k) rest sets true d)
  from_row k rest sets d r e old new =
      let (h, row, f, g) = table.update_row k sets r (inserted k rest d) e in
      let u = updates k rest sets d r e in
      record {
        succeeds = ap (λ (p : Result Text Unit × D). p.0) u;
        row = row;
        found = ap (λ (p : Result Text Unit × D). find k p.1) u ∙ f;
        sets_Holds = lookup-updated sets r row g;
        keeps = λ o c p q. g c ∙ ap (λ (x : Option Value). override x (lookup c r)) q ∙ old o c p;
        fills =
            λ c x p q v. g c ∙ ap (λ (y : Option Value). override y (lookup c r)) q ∙ new p c x v;
        others = λ j n.
            ap (λ (p : Result Text Unit × D). find j p.1) u
            ∙ table.update_others k j sets (inserted k rest d) n
            ∙ table.insert_others k j rest d n;
      }

  -- An upsert that is told to update leaves the columns of `sets` in the row, whether or not the key
  -- was there before, keeps the other columns of an old row, fills those of a new one, and changes no
  -- other row.
  pub upsert-Upserted :
      (k : K) (rest sets : Row) (d : D)
      → Upserted find k (key k ++ rest) sets d (upsert s t reported (key k) rest sets true d)
  upsert-Upserted k rest sets d = elim (Option-cases (find k d)) [
    | inl e ↦
        let (h, r, f, g) = table.insert_new k rest d e in
        from_row k rest sets d r f (λ o c p. cc) (λ p. g)
    | inr (r, e) ↦
        let (m, h) = table.insert_duplicate k rest r d e in
        from_row k rest sets d r (ap (λ (p : Option Text × D). find k p.1) h ∙ e)
          (λ o c p. let q : some r ≡ some o = sym e ∙ p in cc) (λ p. cc)
  ]
