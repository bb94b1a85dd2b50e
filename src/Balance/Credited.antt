-- ===== src/Balance/Credited.antt =====
-- What a group of outputs adds to the balances: balance/balance_manager.go on a database with the laws of
-- Balance/Ledger.antt.
use mathlib.Core.Path.{subst}
use axia_network_v2_magellan.Prelude.{
  arith, ℕ, ◌+◌, true, ◌++◌, List, [], ◌∷◌, Option, none, some, if◌then◌else◌, ◌≡◌, refl, sym, ap,
  ◌∙◌, Bool-cases, inl, inr,
}
use axia_network_v2_magellan.Prelude.Dict.{lookup}
use axia_network_v2_magellan.Prelude.Eq.{◌==◌, elem}
use axia_network_v2_magellan.Prelude.Text.{Text, codes, text_eq, text_beq}
use axia_network_v2_magellan.Prelude.Result.{Result, ok, err}
use axia_network_v2_magellan.Db.Exec.{
  Exec, Stmt, bind-ok, for_each, gets, lift, pure, ◌>>=◌, insert_into, update, equals, raw, text,
  time,
}
use axia_network_v2_magellan.Db.Columns.{Row}
use axia_network_v2_magellan.Db.Rows.{OutputAddressAccumulate}
use axia_network_v2_magellan.Db.Persist.{
  is_duplicate_entry_error, exec_tolerant, insert_output_txs_accumulate, tolerant,
}
use axia_network_v2_magellan.Db.Balances.{
  AccumulateBalancesAmount, insert_accumulate_balances_received, insert_accumulate_balances_sent,
}
use axia_network_v2_magellan.Axc.Node.{Node}
use axia_network_v2_magellan.Balance.Database.{
  Database, ProcessType, balance_table, exec, no_error, type_in, type_out,
}
use axia_network_v2_magellan.Balance.Outputs.{
  add_balance, balance_id, insert_balance, is_locked, process_locked, process_outputs_base,
  process_row,
}
use axia_network_v2_magellan.Balance.Ledger.{Books, IsLedger, Same, View}
use axia_network_v2_magellan.Balance.Hidden.{Books-Same, Books-trans, marks-then-credit, same-Books}

module _ (node : Node) (value : Text → ℕ)
    (balances : Text → Text → List AccumulateBalancesAmount) where
  abbrev pub credit_at : Result Text Text → ℕ → Text → ℕ
  credit_at (ok id) n j = if id == j then n else 0
  credit_at (err e) n j = 0

  -- What an output's balances add to the balance `j`
  unfoldable pub credit : List AccumulateBalancesAmount → Text → ℕ
  credit [] j = 0
  credit (b ∷ bs) j = credit_at (balance_id node b) (value b.total_amount) j + credit bs j

  abbrev pub row_credit : Option OutputAddressAccumulate → Text → ℕ
  row_credit none j = 0
  row_credit (some row) j = credit (balances row.output_id row.address) j

  -- What the rows of the ids add to the balance `j`
  unfoldable pub rows_credit : List (Text × OutputAddressAccumulate) → List Text → Text → ℕ
  rows_credit work_rows [] j = 0
  rows_credit work_rows (id ∷ ids) j =
      row_credit (lookup id work_rows) j + rows_credit work_rows ids j

no_error-ok :
    {D : Type 0} (e : Option Text) (d1 d' : D)
    → ◌≡◌ {A = Result Text Unit × D} (no_error e, d1) (ok tt, d')
    → ◌≡◌ {A = Option Text × D} (e, d1) (none, d')
no_error-ok none d1 d' h = ap (λ (x : Result Text Unit × _). (none, x.1)) h
no_error-ok (some e) d1 d' h = cc

tolerant-state :
    {D : Type 0} (db : Database D) (t : Text) (e : Option Text) (d : D)
    → (tolerant db.tx t e d).1 ≡ d
unfolding tolerant
tolerant-state db t none d = refl
tolerant-state db t (some e) d = elim (Bool-cases (is_duplicate_entry_error e)) [
  | inl same ↦ rw same refl
  | inr other ↦ rw other refl
]

module _ {D : Type 0} (db : Database D) (node : Node) (typ : ProcessType) (inside outside : View D)
    (value : Text → ℕ) (balances : Text → Text → List AccumulateBalancesAmount)
    (ledger : IsLedger db typ inside outside value balances) where
  exec_ok : (st : Stmt) (d d' : D) → exec db st d ≡ (ok tt, d') → db.tx.exec st d ≡ (none, d')
  unfolding exec
  exec_ok st d d' h = no_error-ok (db.tx.exec st d).0 (db.tx.exec st d).1 d' h

  -- A tolerant statement leaves the state that the statement leaves.
  tolerant_state :
      (t : Text) (st : Stmt) (d d' : D) {r : Result Text Unit}
      → exec_tolerant db.tx t st d ≡ (r, d')
      → (db.tx.exec st d).1 ≡ d'
  unfolding exec_tolerant
  tolerant_state t st d d' h =
      sym (tolerant-state db t (db.tx.exec st d).0 (db.tx.exec st d).1)
      ∙ ap (λ (x : Result Text Unit × D). x.1) h

  balance_inserted :
      (t : ProcessType) (b : AccumulateBalancesAmount) (d d' : D)
      → ((pairs : Row) (d0 : D)
          → lookup (codes "total_amount") pairs ≡ none
          → Same inside d0 (db.tx.exec (insert_into (balance_table t) pairs) d0).1)
      → insert_balance db t b d ≡ (ok tt, d')
      → Same inside d d'
  unfolding insert_balance insert_accumulate_balances_received insert_accumulate_balances_sent
      balance_table lookup text_beq
  balance_inserted type_out b d d' law h =
      subst (Same inside d) (tolerant_state _ _ d d' h) (law _ d refl)
  balance_inserted type_in b d d' law h =
      subst (Same inside d) (tolerant_state _ _ d d' h) (law _ d refl)

  -- What a part of the transaction does, if it succeeds
  abbrev Leads : List Text → (Text → ℕ) → Exec D Unit → Type 0
  Leads marks credited m = (d d' : D) → m d ≡ (ok tt, d') → Books inside marks credited d d'

  -- A part that changes nothing inside; its result is as `Q` says.
  abbrev Quiet : {A : Type 0} → (A → Type 0) → Exec D A → Type 0
  Quiet Q m = (a : _) (d d' : D) → m d ≡ (ok a, d') → Q a × Same inside d d'

  then-Leads :
      {A : Type 0} {m : Exec D A} {f : A → Exec D Unit} {marks : List Text} {credited : Text → ℕ}
      (Q : A → Type 0)
      → Quiet Q m
      → ((a : A) → Q a → Leads marks credited (f a))
      → Leads marks credited (m >>= f)
  then-Leads {m = m} {f = f} Q quiet h d d' e =
      let (a, d1, first, rest) = bind-ok m f d e in
      let (q, same) = quiet a d d1 first in same-Books same (h a q d1 d' rest)

  abbrev Any : {A : Type 0} → A → Type 0
  Any a = Unit

  lift-Quiet : {A : Type 0} (r : Result Text A) → Quiet (λ a. r ≡ ok a) (lift r)
  unfolding lift
  lift-Quiet r a d d' h = (
    ap (λ (x : Result Text _ × D). x.0) h,
    subst (Same inside d) (ap (λ (x : Result Text _ × D). x.1) h) Books-Same,
  )

  gets-Quiet : {A : Type 0} (f : D → A) → Quiet Any (gets f)
  unfolding gets
  gets-Quiet f a d d' h =
      (tt, subst (Same inside d) (ap (λ (x : Result Text _ × D). x.1) h) Books-Same)

  txs-Quiet :
      (pairs : Row)
      → Quiet Any (
          exec_tolerant db.tx
            (codes "output_txs_accumulate")
            (insert_into (codes "output_txs_accumulate") pairs))
  txs-Quiet pairs a d d' h =
      (tt, subst (Same inside d) (tolerant_state _ _ d d' h) (ledger.inserts_txs pairs d))

  balance-Quiet : (b : AccumulateBalancesAmount) → Quiet Any (insert_balance db typ b)
  balance-Quiet b a d d' h = (tt, balance_inserted typ b d d' ledger.inserts_balance h)

  -- The same, where what comes next relies on the state after the first part
  then-Leads_from :
      {A : Type 0} {m : Exec D A} {f : A → Exec D Unit} {marks : List Text} {credited : Text → ℕ}
      (Q : A → D → Type 0)
      → ((a : A) (d d' : D) → m d ≡ (ok a, d') → Q a d' × Same inside d d')
      → ((a : A) (d d' : D) → Q a d → f a d ≡ (ok tt, d') → Books inside marks credited d d')
      → Leads marks credited (m >>= f)
  then-Leads_from {m = m} {f = f} Q quiet h d d' e =
      let (a, d1, first, rest) = bind-ok m f d e in
      let (q, same) = quiet a d d1 first in same-Books same (h a d1 d' q rest)

  elem-is_locked :
      (id : Text) (locked : List Text) → is_locked id locked ≡ ok tt → elem id locked ≡ true
  unfolding elem
  elem-is_locked id [] h = cc
  elem-is_locked id (brow ∷ rest) h = ground (arith, h)

  -- A balance that was found is credited.
  locked-Leads :
      (id amount : Text) (locked : List Text) (d d' : D)
      → elem id locked ≡ inside.has id d
      → (lift (is_locked id locked) >>= λ u. gets db.tx.now >>= λ updated. exec db (
            update
              (balance_table typ)
              ((codes "utxo_count", raw (codes "utxo_count+1"))
                ∷ (codes "total_amount", raw (codes "total_amount+" ++ amount))
                ∷ (codes "updated_at", time updated)
                ∷ [])
              (equals (codes "id") (text id) ∷ [])))
          d
        ≡ (ok tt, d')
      → Books inside [] (λ j. if id == j then value amount else 0) d d'
  unfolding lift gets
  locked-Leads id amount locked d d' found h =
      let (u, d1, first, rest) = bind-ok (lift (is_locked id locked)) _ d h in
      let (updated, d2, second, last) = bind-ok (gets db.tx.now) _ d1 rest in
      let at_first : d ≡ d1 = ap (λ (x : Result Text Unit × D). x.1) first in
      let at_second : d1 ≡ d2 = ap (λ (x : Result Text _ × D). x.1) second in
      let there : inside.has id d ≡ true =
        sym found ∙ elem-is_locked id locked (ap (λ (x : Result Text Unit × D). x.0) first) in
      subst (λ x. Books inside [] (λ j. if id == j then value amount else 0) x d')
        (sym (at_first ∙ at_second))
        (ledger.credits id amount updated d2 d'
          (subst (λ x. inside.has id x ≡ true) (at_first ∙ at_second) there) (exec_ok _ d2 d' last))

  add_balance-Leads :
      (row : OutputAddressAccumulate) (b : AccumulateBalancesAmount)
      → Leads []
          (credit_at node value balances (balance_id node b) (value b.total_amount))
          (add_balance db node typ row b)
  unfolding add_balance insert_output_txs_accumulate
  add_balance-Leads row b = then-Leads Any (gets-Quiet db.tx.now) (λ created c.
      then-Leads _ (lift-Quiet _) (λ txs_id t. then-Leads Any (txs-Quiet _) (λ u1 t1.
        then-Leads _ (lift-Quiet (balance_id node b)) (λ id is_id.
          then-Leads Any (balance-Quiet _) (λ u2 t2.
            then-Leads_from (λ locked d. elem id locked ≡ inside.has id d)
              (λ locked d d' h. ledger.locks_balance id locked d d' h)
              (λ locked d d' found h.
                subst
                  (λ r.
                    Books inside [] (credit_at node value balances r (value b.total_amount)) d d')
                  (sym is_id) (locked-Leads id b.total_amount locked d d' found h)))))))

  add_balances-Leads :
      (row : OutputAddressAccumulate) (bs : List AccumulateBalancesAmount)
      → Leads [] (credit node value balances bs) (for_each (add_balance db node typ row) bs)
  unfolding for_each pure credit
  add_balances-Leads row [] d d' h =
      subst (Same inside d) (ap (λ (x : Result Text Unit × D). x.1) h) Books-Same
  add_balances-Leads row (b ∷ bs) d d' h =
      let (u, d1, e1, h1) = bind-ok _ _ d h in
      Books-trans (add_balance-Leads row b d d1 e1) (add_balances-Leads row bs d1 d' h1)

  balances-Quiet : (o a : Text) → Quiet (λ found. found ≡ balances o a) (db.output_balances o a)
  balances-Quiet o a found d d' h = ledger.finds o a found d d' h

  process_outputs_base-Leads :
      (row : OutputAddressAccumulate)
      → Leads
          (row.id ∷ [])
          (row_credit node value balances (some row))
          (process_outputs_base db node typ row)
  unfolding process_outputs_base
  process_outputs_base-Leads row d d' h =
      let (u, d1, e1, h1) = bind-ok _ _ d h in
      let marked = ledger.marks row.id d d1 (exec_ok _ d d1 e1) in
      let credited =
        then-Leads _ (balances-Quiet row.output_id row.address)
          (λ found is_found. then-Leads _ (lift-Quiet _) (λ u1 t1.
            subst
              (λ bs.
                Leads [] (credit node value balances bs)
                  (for_each (add_balance db node typ row) found))
              is_found (add_balances-Leads row found)))
          d1 d' h1 in
      marks-then-credit marked credited

  process_row-Leads :
      (id : Text) (o : Option OutputAddressAccumulate)
      → ((row : OutputAddressAccumulate) → o ≡ some row → row.id ≡ id)
      → Leads (id ∷ []) (row_credit node value balances o) (process_row db node typ o)
  unfolding lift
  process_row-Leads id none named d d' h = cc
  process_row-Leads id (some row) named d d' h =
      subst (λ i. Books inside (i ∷ []) (row_credit node value balances (some row)) d d')
        (named row refl) (process_outputs_base-Leads row d d' h)

  pub process_locked-Leads :
      (work_rows : List (Text × OutputAddressAccumulate)) (ids : List Text)
      → ((id : Text) (row : OutputAddressAccumulate) → lookup id work_rows ≡ some row → row.id ≡ id)
      → Leads ids
          (rows_credit node value balances work_rows ids)
          (process_locked db node typ work_rows ids)
  unfolding process_locked for_each pure rows_credit
  process_locked-Leads work_rows [] named d d' h =
      subst (Same inside d) (ap (λ (x : Result Text Unit × D). x.1) h) Books-Same
  process_locked-Leads work_rows (id ∷ ids) named d d' h =
      let (u, d1, e1, h1) = bind-ok _ _ d h in
      Books-trans (process_row-Leads id (lookup id work_rows) (named id) d d1 e1)
        (process_locked-Leads work_rows ids named d1 d' h1)
