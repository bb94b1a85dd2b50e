-- ===== src/Balance/Hidden.antt =====
-- What the others see of a transaction of balance/balance_manager.go before it commits: nothing.
use axia_network_v2_magellan.Prelude.{
  ℕ, ◌+◌, true, false, ◌||◌, List, [], ◌∷◌, ◌++◌, Option, none, some, ◌≡◌, refl, arith,
}
use axia_network_v2_magellan.Prelude.Dict.{lookup}
use axia_network_v2_magellan.Prelude.Eq.{elem}
use axia_network_v2_magellan.Prelude.Text.{Text, text_eq}
use axia_network_v2_magellan.Prelude.Result.{Result}
use axia_network_v2_magellan.Db.Always.{
  bind-Always, exec_tolerant-Always, for_each-Always, gets-Always, lift-Always, pure-Always,
}
use axia_network_v2_magellan.Db.Exec.{Exec, Stmt, for_each, gets, lift, pure, ◌>>=◌}
use axia_network_v2_magellan.Db.Rows.{OutputAddressAccumulate}
use axia_network_v2_magellan.Db.Persist.{exec_tolerant, insert_output_txs_accumulate}
use axia_network_v2_magellan.Db.Balances.{
  AccumulateBalancesAmount, insert_accumulate_balances_received, insert_accumulate_balances_sent,
}
use axia_network_v2_magellan.Axc.Node.{Node}
use axia_network_v2_magellan.Balance.Database.{Database, ProcessType, exec, type_in, type_out}
use axia_network_v2_magellan.Balance.Outputs.{
  add_balance, insert_balance, process_locked, process_outputs_base, process_row, some_locked,
}
use axia_network_v2_magellan.Balance.Ledger.{Books, IsLedger, Same, View, nothing}

elem-append : (id : Text) (a b : List Text) → elem id (a ++ b) ≡ (elem id a || elem id b)
unfolding elem
elem-append id [] b = refl
elem-append id (x ∷ a) b = ground (arith, elem-append id a b)

module _ {D : Type 0} {v : View D} where
  pub Books-trans :
      {d d1 d2 : D} {m n : List Text} {c e : Text → ℕ}
      → Books v m c d d1
      → Books v n e d1 d2
      → Books v (m ++ n) (λ id. c id + e id) d d2
  Books-trans {d} {m = m} {n = n} b b' = record {
    processed = λ id. ground (arith, b'.processed id, b.processed id, elem-append id m n);
    total = λ id. omega (arith, b'.total id, b.total id);
  }

  pub Books-Same : {d : D} → Same v d d
  unfolding elem
  Books-Same {d} = record { processed = λ id. refl; total = λ id. omega arith }

  pub same-Books :
      {d d1 d2 : D} {m : List Text} {c : Text → ℕ}
      → Same v d d1
      → Books v m c d1 d2
      → Books v m c d d2
  unfolding elem
  same-Books b b' = record {
    processed = λ id. ground (arith, b'.processed id, b.processed id);
    total = λ id. omega (arith, b'.total id, b.total id);
  }

  pub Books-then-same :
      {d d1 d2 : D} {m : List Text} {c : Text → ℕ}
      → Books v m c d d1
      → Same v d1 d2
      → Books v m c d d2
  unfolding elem
  Books-then-same b b' = record {
    processed = λ id. ground (arith, b'.processed id, b.processed id);
    total = λ id. omega (arith, b'.total id, b.total id);
  }

  pub marks-then-credit :
      {d d1 d2 : D} {m : List Text} {c : Text → ℕ}
      → Books v m nothing d d1
      → Books v [] c d1 d2
      → Books v m c d d2
  unfolding elem
  marks-then-credit b b' = record {
    processed = λ id. ground (arith, b'.processed id, b.processed id);
    total = λ id. omega (arith, b'.total id, b.total id);
  }

module _ {D : Type 0} (v : View D) where
  -- Whatever comes of it, `v` shows the same after it.
  abbrev pub Hides : {A : Type 0} → Exec D A → Type 0
  Hides m = (d : D) → Same v d (m d).1

  bind-Hides :
      {A B : Type 0} (m : Exec D A) (f : A → Exec D B)
      → Hides m
      → ((a : A) → Hides (f a))
      → Hides (m >>= f)
  bind-Hides = bind-Always (Same v) (λ d. Books-Same) (λ d d1 d2 a b. same-Books a b)

  pure-Hides : {A : Type 0} (a : A) → Hides (pure a)
  pure-Hides = pure-Always (Same v) (λ d. Books-Same) (λ d d1 d2 a b. same-Books a b)

  lift-Hides : {A : Type 0} (r : Result Text A) → Hides (lift r)
  lift-Hides = lift-Always (Same v) (λ d. Books-Same) (λ d d1 d2 a b. same-Books a b)

  gets-Hides : {A : Type 0} (f : D → A) → Hides (gets f)
  gets-Hides = gets-Always (Same v) (λ d. Books-Same) (λ d d1 d2 a b. same-Books a b)

  for_each-Hides :
      {A : Type 0} (f : A → Exec D Unit) (l : List A)
      → ((a : A) → Hides (f a))
      → Hides (for_each f l)
  for_each-Hides = for_each-Always (Same v) (λ d. Books-Same) (λ d d1 d2 a b. same-Books a b)

module _ {D : Type 0} (db : Database D) (node : Node) (typ : ProcessType) (inside outside : View D)
    (value : Text → ℕ) (balances : Text → Text → List AccumulateBalancesAmount)
    (ledger : IsLedger db typ inside outside value balances) where
  exec-Hides : (st : Stmt) → Hides outside (exec db st)
  unfolding exec
  exec-Hides st d = ledger.exec_hides st d

  exec_tolerant-Hides : (t : Text) (st : Stmt) → Hides outside (exec_tolerant db.tx t st)
  exec_tolerant-Hides t st =
      exec_tolerant-Always (Same outside) (λ d. Books-Same) (λ d d1 d2 a b. same-Books a b) db.tx t
        st (ledger.exec_hides st)

  insert_balance-Hides :
      (t : ProcessType) (b : AccumulateBalancesAmount) → Hides outside (insert_balance db t b)
  unfolding insert_balance insert_accumulate_balances_received insert_accumulate_balances_sent
  insert_balance-Hides type_out b = exec_tolerant-Hides _ _
  insert_balance-Hides type_in b = exec_tolerant-Hides _ _

  add_balance-Hides :
      (row : OutputAddressAccumulate) (b : AccumulateBalancesAmount)
      → Hides outside (add_balance db node typ row b)
  unfolding add_balance insert_output_txs_accumulate
  add_balance-Hides row b = bind-Hides outside _ _ (gets-Hides outside db.tx.now) (λ created.
      bind-Hides outside _ _ (lift-Hides outside _) (λ txs_id.
        bind-Hides outside _ _ (exec_tolerant-Hides _ _) (λ u.
          bind-Hides outside _ _ (lift-Hides outside _) (λ id.
            bind-Hides outside _ _ (insert_balance-Hides typ _) (λ u1.
              bind-Hides outside _ _ (λ d. ledger.lock_balance_hides _ _ d)
                (λ locked. bind-Hides outside _ _ (lift-Hides outside _) (λ u2.
                  bind-Hides outside _ _ (gets-Hides outside db.tx.now)
                    (λ updated. exec-Hides _))))))))

  process_outputs_base-Hides :
      (row : OutputAddressAccumulate) → Hides outside (process_outputs_base db node typ row)
  unfolding process_outputs_base
  process_outputs_base-Hides row = bind-Hides outside _ _ (exec-Hides _) (λ u.
      bind-Hides outside _ _ (λ d. ledger.output_balances_hides _ _ d)
        (λ got.
          bind-Hides outside _ _ (lift-Hides outside _)
            (λ u1. for_each-Hides outside _ got (λ b. add_balance-Hides row b))))

  process_row-Hides :
      (o : Option OutputAddressAccumulate) → Hides outside (process_row db node typ o)
  process_row-Hides none = lift-Hides outside _
  process_row-Hides (some row) = process_outputs_base-Hides row

  pub process_locked-Hides :
      (work_rows : List (Text × OutputAddressAccumulate)) (ids : List Text)
      → Hides outside (process_locked db node typ work_rows ids)
  unfolding process_locked
  process_locked-Hides work_rows ids =
      for_each-Hides outside _ ids (λ id. process_row-Hides (lookup id work_rows))

  pub some_locked-Hides :
      (work_rows : List (Text × OutputAddressAccumulate)) (ids : List Text) (work : Exec D Unit)
      → Hides outside work
      → Hides outside (some_locked ids work)
  some_locked-Hides work_rows [] work h = pure-Hides outside false
  some_locked-Hides work_rows (id ∷ ids) work h =
      bind-Hides outside _ _ h (λ u. pure-Hides outside true)
