-- ===== src/Db/Always.antt =====
-- What code of a session does to the state whatever comes of it, given what its statements do.
use axia_network_v2_magellan.Prelude.{
  Bool, true, false, if◌then◌else◌, ◌++◌, List, [], ◌∷◌, Option, none, some, Bool-cases, inl, inr,
}
use axia_network_v2_magellan.Prelude.Text.{Text}
use axia_network_v2_magellan.Prelude.Result.{Result, ok, err}
use axia_network_v2_magellan.Db.Exec.{
  Exec, Session, Stmt, insert_into, update, continue, for_each, gets, lift, pure, ◌>>=◌,
}
use axia_network_v2_magellan.Db.Columns.{Row, where_key}
use axia_network_v2_magellan.Db.Persist.{
  exec_strict, exec_tolerant, is_duplicate_entry_error, strict, tolerant, upsert,
}

module _ {D : Type 0} (R : D → D → Type 0) (same : (d : D) → R d d)
    (trans : (d d1 d2 : D) → R d d1 → R d1 d2 → R d d2) where
  -- The state before and the state after are in the relation.
  abbrev pub Always : {A : Type 0} → Exec D A → Type 0
  Always m = (d : D) → R d (m d).1

  pub bind-Always :
      {A B : Type 0} (m : Exec D A) (f : A → Exec D B)
      → Always m
      → ((a : A) → Always (f a))
      → Always (m >>= f)
  unfolding ◌>>=◌
  bind-Always m f h k d = trans d (m d).1 _ (h d) (continued (m d).0 (m d).1)
    where
      continued : (r : Result Text _) (d' : D) → R d' (continue r f d').1
      continued (ok a) d' = k a d'
      continued (err e) d' = same d'

  pub pure-Always : {A : Type 0} (a : A) → Always (pure a)
  unfolding pure
  pure-Always a d = same d

  pub lift-Always : {A : Type 0} (r : Result Text A) → Always (lift r)
  unfolding lift
  lift-Always r d = same d

  pub gets-Always : {A : Type 0} (f : D → A) → Always (gets f)
  unfolding gets
  gets-Always f d = same d

  pub for_each-Always :
      {A : Type 0} (f : A → Exec D Unit) (l : List A)
      → ((a : A) → Always (f a))
      → Always (for_each f l)
  unfolding for_each
  for_each-Always f [] h = pure-Always tt
  for_each-Always f (x ∷ l) h =
      bind-Always (f x) (λ u. for_each f l) (h x) (λ u. for_each-Always f l h)

  module _ (s : Session D) (t : Text) (st : Stmt) (runs : (d : D) → R d (s.exec st d).1) where
    pub exec_tolerant-Always : Always (exec_tolerant s t st)
    unfolding exec_tolerant tolerant
    exec_tolerant-Always d = trans d (s.exec st d).1 _ (runs d) (passed (s.exec st d).0)
      where
        passed : (e : Option Text) → R (s.exec st d).1 (tolerant s t e (s.exec st d).1).1
        passed none = same (s.exec st d).1
        passed (some e) = elim (Bool-cases (is_duplicate_entry_error e)) [
          | inl twice ↦ rw twice (same (s.exec st d).1)
          | inr other ↦ rw other (same (s.exec st d).1)
        ]

    pub exec_strict-Always : Always (exec_strict s t st)
    unfolding exec_strict strict
    exec_strict-Always d = trans d (s.exec st d).1 _ (runs d) (passed (s.exec st d).0)
      where
        passed : (e : Option Text) → R (s.exec st d).1 (strict s t e (s.exec st d).1).1
        passed none = same (s.exec st d).1
        passed (some e) = same (s.exec st d).1

  module _ (s : Session D) (runs : (st : Stmt) (d : D) → R d (s.exec st d).1) where
    pub upsert-Always :
        (table reported : Text) (key rest sets : Row) (upd : Bool)
        → Always (upsert s table reported key rest sets upd)
    unfolding upsert
    upsert-Always table reported key rest sets upd =
        bind-Always _ _
          (exec_tolerant-Always s table (insert_into table (key ++ rest))
            (runs (insert_into table (key ++ rest))))
          (λ u. updated upd)
      where
        updated :
            (b : Bool)
            → Always
                (if b then exec_strict s reported (update table sets (where_key key)) else pure tt)
        updated true =
            exec_strict-Always s reported (update table sets (where_key key))
              (runs (update table sets (where_key key)))
        updated false = pure-Always tt
