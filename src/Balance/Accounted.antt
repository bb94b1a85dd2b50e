-- ===== src/Balance/Accounted.antt =====
-- What the transaction of one group of outputs comes to for the others: balance/balance_manager.go,
-- `processOutputsPost`.
use mathlib.Core.Path.{subst}
use axia_network_v2_magellan.Prelude.{
  ℕ, ◌+◌, true, false, ◌||◌, ◌&&◌, not, List, [], ◌∷◌, Option, none, some, ◌≡◌, refl, ap, ◌∙◌,
}
use axia_network_v2_magellan.Prelude.Dict.{lookup}
use axia_network_v2_magellan.Prelude.Eq.{elem}
use axia_network_v2_magellan.Prelude.Text.{Text, text_eq}
use axia_network_v2_magellan.Prelude.Result.{Result, ok, err}
use axia_network_v2_magellan.Db.Exec.{continue, pure, ◌>>=◌}
use axia_network_v2_magellan.Db.Rows.{OutputAddressAccumulate}
use axia_network_v2_magellan.Db.Balances.{AccumulateBalancesAmount}
use axia_network_v2_magellan.Axc.Node.{Node}
use axia_network_v2_magellan.Balance.Database.{
  Database, ProcessType, begun, committed, finish, out_table, transaction,
}
use axia_network_v2_magellan.Balance.Outputs.{process_locked, process_outputs_post, some_locked}
use axia_network_v2_magellan.Balance.Ledger.{Books, IsFound, IsLedger, Same, View}
use axia_network_v2_magellan.Balance.Hidden.{Books-then-same, same-Books, process_locked-Hides}
use axia_network_v2_magellan.Balance.Credited.{process_locked-Leads, rows_credit}

module _ {D : Type 0} (outside : View D) (unit_credit : List Text → Text → ℕ)
    (ids : List Text) where
  -- Either the transaction fails and the others see nothing of it, or they see the unprocessed rows of
  -- `ids` processed and their credits made.
  abbrev pub Outcome : D → Result Text Unit × D → Type 0
  Outcome d (err e, d') = Same outside d d'
  Outcome d (ok u, d') =
      (found : List Text) × IsFound ids outside d found
      × Books outside found (unit_credit found) d d'

module _ {D : Type 0} (db : Database D) (node : Node) (typ : ProcessType) (inside outside : View D)
    (value : Text → ℕ) (balances : Text → Text → List AccumulateBalancesAmount)
    (ledger : IsLedger db typ inside outside value balances)
    (work_rows : List (Text × OutputAddressAccumulate)) (ids : List Text)
    (named : (id : Text) (row : OutputAddressAccumulate)
      → lookup id work_rows ≡ some row
      → row.id ≡ id) where
  abbrev credits : List Text → Text → ℕ
  credits = rows_credit node value balances work_rows

  -- What the transaction sees where it has begun is what the others saw.
  abbrev Opened : D → D → Type 0
  Opened d d1 =
      (id : Text)
      → (inside.processed id d1 ≡ outside.processed id d)
        × (inside.total id d1 ≡ outside.total id d)

  failed :
      (d d' : D) (e : Text)
      → Same outside d d'
      → Outcome outside credits ids d (finish db (err e, d'))
  failed d d' e same = Books-then-same same (ledger.rollback_hides d')

  outside-IsFound :
      (found : List Text) (d d1 : D)
      → Opened d d1
      → IsFound ids inside d1 found
      → IsFound ids outside d found
  outside-IsFound found d d1 opened (are, once) =
      ((λ id. are id ∙ ap (λ b. elem id ids && not b) (opened id).0), once)

  none_found :
      (d d1 d' : D)
      → Opened d d1
      → IsFound ids inside d1 []
      → Same outside d d'
      → Outcome outside credits ids d (finish db (ok false, d'))
  unfolding rows_credit
  none_found d d1 d' opened are same =
      ([], outside-IsFound [] d d1 opened are, Books-then-same same (ledger.rollback_hides d'))

  ended :
      (found : List Text) (d d1 d2 d3 d4 : D) (e : Option Text)
      → db.commit d3 ≡ (e, d4)
      → Opened d d1
      → Same inside d1 d2 × IsFound ids inside d1 found
      → Books inside found (credits found) d2 d3
      → Same outside d d3
      → Outcome outside credits ids d (committed db (e, d4))
  ended found d d1 d2 d3 d4 (some e) h opened locked done hidden =
      Books-then-same (Books-then-same hidden (ledger.commit_fails e d3 d4 h))
        (ledger.rollback_hides d4)
  ended found d d1 d2 d3 d4 none h opened (quiet, are) done hidden = (
    found,
    outside-IsFound found d d1 opened are,
    Books-then-same books (ledger.rollback_hides d4),
  )
    where
      inner : Books inside found (credits found) d1 d3
      inner = same-Books quiet done

      books : Books outside found (credits found) d d4
      books = record {
        processed = λ id.
            (ledger.commits d3 d4 id h).0
            ∙ inner.processed id
            ∙ ap (λ b. elem id found || b) (opened id).0;
        total = λ id.
            (ledger.commits d3 d4 id h).1
            ∙ inner.total id
            ∙ ap (λ n. n + credits found id) (opened id).1;
      }

  after_rows :
      (found : List Text) (d d1 d2 d3 : D) (r : Result Text Unit)
      → process_locked db node typ work_rows found d2 ≡ (r, d3)
      → Opened d d1
      → Same inside d1 d2 × IsFound ids inside d1 found
      → Same outside d d3
      → Outcome outside credits ids d (finish db (continue r (λ u. pure true) d3))
  unfolding pure
  after_rows found d d1 d2 d3 (err e) h opened locked hidden = failed d d3 e hidden
  after_rows found d d1 d2 d3 (ok u) h opened locked hidden =
      ended found d d1 d2 d3 (db.commit d3).1 (db.commit d3).0 refl opened locked
        (process_locked-Leads db node typ inside outside value balances ledger work_rows found named
          d2 d3 h)
        hidden

  after_lock :
      (d d1 d2 : D) (r : Result Text (List Text))
      → db.lock_unprocessed (out_table typ) ids d1 ≡ (r, d2)
      → Opened d d1
      → Same outside d d2
      → Outcome outside credits ids d (
          finish db (
            continue r
              (λ found. some_locked found (process_locked db node typ work_rows found))
              d2))
  unfolding ◌>>=◌ pure
  after_lock d d1 d2 (err e) h opened hidden = failed d d2 e hidden
  after_lock d d1 d2 (ok []) h opened hidden =
      none_found d d1 d2 opened (ledger.locks ids [] d1 d2 h).1 hidden
  after_lock d d1 d2 (ok (id ∷ more)) h opened hidden =
      let worked = process_locked db node typ work_rows (id ∷ more) d2 in
      after_rows (id ∷ more) d d1 d2 worked.1 worked.0 refl opened
        (ledger.locks ids (id ∷ more) d1 d2 h)
        (same-Books hidden (
          process_locked-Hides db node typ inside outside value balances ledger work_rows
            (id ∷ more) d2))

  after_begin :
      (d d1 : D) (e : Option Text)
      → db.begin d ≡ (e, d1)
      → Outcome outside credits ids d (
          begun db
            (db.lock_unprocessed (out_table typ) ids
              >>= (λ found. some_locked found (process_locked db node typ work_rows found)))
            (e, d1))
  unfolding ◌>>=◌
  after_begin d d1 (some e) h =
      subst (λ (x : Option Text × D). Same outside d x.1) h (ledger.begin_hides d)
  after_begin d d1 none h =
      let locked = db.lock_unprocessed (out_table typ) ids d1 in
      after_lock d d1 locked.1 locked.0 refl
        (λ id.
          subst
            (λ (x : Option Text × D).
              (inside.processed id x.1 ≡ outside.processed id d)
              × (inside.total id x.1 ≡ outside.total id d))
            h (ledger.begins d id))
        (same-Books (subst (λ (x : Option Text × D). Same outside d x.1) h (ledger.begin_hides d))
          (ledger.lock_unprocessed_hides (out_table typ) ids d1))

  -- Let the database be a ledger of balances, where a transaction works on its own view, and let each
  -- row of `work_rows` have the id it is kept at. Then `processOutputsPost` either returns an error and
  -- the others see nothing changed, or it returns none, and the others see the unprocessed rows of the
  -- ids asked for processed, each balance increased by exactly what the outputs of those rows add to
  -- it, each row counted once, and nothing else changed.
  pub process_outputs_post-Outcome :
      (d : D)
      → Outcome outside
          (rows_credit node value balances work_rows)
          ids
          d
          (process_outputs_post db node typ work_rows ids d)
  unfolding process_outputs_post transaction
  process_outputs_post-Outcome d = after_begin d (db.begin d).1 (db.begin d).0 refl
