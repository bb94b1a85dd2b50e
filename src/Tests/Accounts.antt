-- ===== src/Tests/Accounts.antt =====
-- A ledger of balances in memory, and a group of outputs accumulated in it.
use mathlib.Core.Path.{subst}
use axia_network_v2_magellan.Prelude.{
  ℕ, zero, suc, ◌+◌, ◌*◌, ◌-◌, Bool, true, false, ◌||◌, ◌&&◌, not, List, [], ◌∷◌, Option, none,
  if◌then◌else◌, ◌≡◌, refl, sym, ap, arith,
}
use axia_network_v2_magellan.Prelude.Eq.{◌==◌, beq_refl, elem}
use axia_network_v2_magellan.Db.Columns.{Row}
use axia_network_v2_magellan.Prelude.Text.{Text, codes, text_eq, text_beq_iff}
use axia_network_v2_magellan.Prelude.Result.{Result, ok, err}
use axia_network_v2_magellan.Db.Exec.{
  Stmt, bytes, equals, flag, insert_into, num, raw, text, time, update,
}
use axia_network_v2_magellan.Db.Rows.{OutputAddressAccumulate}
use axia_network_v2_magellan.Db.Balances.{AccumulateBalancesAmount}
use axia_network_v2_magellan.Balance.Database.{Database, balance_table, type_out}
use axia_network_v2_magellan.Balance.Outputs.{process_group, to_map}
use axia_network_v2_magellan.Balance.Ledger.{
  Books, IsFound, IsLedger, Same, View, distinct, nothing,
}
use axia_network_v2_magellan.Balance.Credited.{rows_credit}
use axia_network_v2_magellan.Balance.Accounted.{Outcome}
use axia_network_v2_magellan.Axc.Outputs.{compute_id}
use axia_network_v2_magellan.Balance.Groups.{process_group-Outcome}
use axia_network_v2_magellan.Tests.Setting.{noon, node}

-- The ids of the processed rows, and the balances made and credited
abbrev State : Type 0
State = List Text × List (Text × ℕ)

abbrev sum_at : Text → List (Text × ℕ) → ℕ
sum_at j [] = 0
sum_at j ((id, n) ∷ log) = sum_at j log + (if id == j then n else 0)

abbrev read_from : ℕ → Text → ℕ
read_from n [] = n
read_from n (c ∷ s) = read_from (n * 10 + (c - 48)) s

abbrev drop : ℕ → Text → Text
drop zero s = s
drop (suc n) [] = []
drop (suc n) (c ∷ s) = drop n s

-- Whether a balance was made
abbrev has_balance : Text → List (Text × ℕ) → Bool
has_balance j [] = false
has_balance j ((id, n) ∷ log) = id == j || has_balance j log

-- A balance that is missing is not credited.
abbrev run : Stmt → State → State
run (insert_into t ((c, text id) ∷ pairs)) s =
    if t == balance_table type_out then (s.0, (id, 0) ∷ s.1) else s
run (update t ((c, num n) ∷ []) (equals c' (text id) ∷ [])) s = (id ∷ s.0, s.1)
run (update t ((c, raw x) ∷ (c1, raw y) ∷ more) (equals c' (text id) ∷ [])) s =
    if has_balance id s.1 then (s.0, (id, read_from 0 (drop 13 y)) ∷ s.1) else s
run other s = s

-- The ids of a list that are not among the marks, each once
abbrev unmarked : List Text → List Text → List Text
unmarked marks [] = []
unmarked marks (id ∷ ids) =
    let rest = unmarked marks ids in if elem id marks || elem id rest then rest else id ∷ rest

abbrev sums : Text → Text → List AccumulateBalancesAmount
sums o a =
    record {
      id = [];
      chain_id = codes "X";
      asset_id = codes "AX";
      address = a;
      total_amount = codes "70";
      utxo_count = [];
      updated_at = noon;
    }
    ∷ []

-- What the others see, and what the transaction sees
abbrev memory : Database (State × State)
memory = record {
  begin = λ d. (none, (d.0, d.0));
  commit = λ d. (none, (d.1, d.1));
  rollback = λ d. (d.0, d.0);
  tx = record { exec = λ st d. (none, (d.0, run st d.1)); now = λ d. noon };
  lock_unprocessed = λ t ids d. (ok (unmarked d.1.0 ids), d);
  output_balances = λ o a d. (ok (sums o a), d);
  lock_balance = λ t id d. (ok (if has_balance id d.1.1 then id ∷ [] else []), d);
  outputs_to_process = λ b t d. (ok [], d);
  transactions_to_process = λ d. (ok [], d);
}

abbrev inner : View (State × State)
inner = record {
  has = λ id d. has_balance id d.1.1;
  processed = λ id d. elem id d.1.0;
  total = λ id d. sum_at id d.1.1;
}

abbrev outer : View (State × State)
outer = record {
  has = λ id d. has_balance id d.0.1;
  processed = λ id d. elem id d.0.0;
  total = λ id d. sum_at id d.0.1;
}

nothing-changed : (v : View (State × State)) (d : State × State) → Same v d d
unfolding elem
nothing-changed v d = record { processed = λ id. refl; total = λ id. omega arith }

hidden : (d : State × State) (w : State) → Same outer d (d.0, w)
unfolding elem
hidden d w = record { processed = λ id. refl; total = λ id. omega arith }

elem-unmarked :
    (marks ids : List Text) (j : Text)
    → elem j (unmarked marks ids) ≡ (elem j ids && not (elem j marks))
unfolding elem
elem-unmarked marks [] j = refl
elem-unmarked marks (id ∷ ids) j =
    ground (arith, text_beq_iff id j, elem-unmarked marks ids j, elem-unmarked marks ids id)

unmarked-distinct : (marks ids : List Text) → distinct (unmarked marks ids) ≡ true
unfolding distinct
unmarked-distinct marks [] = refl
unmarked-distinct marks (id ∷ ids) = ground (arith, unmarked-distinct marks ids)

found_of :
    {A : Type 0} {a b : A} {d d' : State × State}
    → ◌≡◌ {A = Result Text A × (State × State)} (ok a, d) (ok b, d')
    → a ≡ b
found_of h = cc

marked : (id : Text) (o w : State) → Books inner (id ∷ []) nothing (o, w) (o, (id ∷ w.0, w.1))
unfolding elem
marked id o w = record { processed = λ j. ground arith; total = λ j. omega arith }

credited :
    (id : Text) (n : ℕ) (o w : State)
    → Books inner [] (λ j. if id == j then n else 0) (o, w) (o, (w.0, (id, n) ∷ w.1))
unfolding elem
credited id n o w = record { processed = λ j. refl; total = λ j. refl }

made :
    (b : Bool) (id : Text) (o w : State)
    → Same inner (o, w) (o, (if b then (w.0, (id, 0) ∷ w.1) else w))
unfolding elem
made true id o w = record { processed = λ j. refl; total = λ j. ground arith }
made false id o w = nothing-changed inner (o, w)

inserted :
    (t : Text) (pairs : Row) (d : State × State) → Same inner d (d.0, run (insert_into t pairs) d.1)
inserted t [] d = nothing-changed inner d
inserted t ((c, text id) ∷ pairs) d = made (t == balance_table type_out) id d.0 d.1
inserted t ((c, num n) ∷ pairs) d = nothing-changed inner d
inserted t ((c, bytes b) ∷ pairs) d = nothing-changed inner d
inserted t ((c, flag b) ∷ pairs) d = nothing-changed inner d
inserted t ((c, time z) ∷ pairs) d = nothing-changed inner d
inserted t ((c, raw x) ∷ pairs) d = nothing-changed inner d

found_if : (id : Text) (b : Bool) → elem id (if b then id ∷ [] else []) ≡ b
unfolding elem
found_if id true = ground (arith, beq_refl id)
found_if id false = refl

memory-IsLedger : IsLedger memory type_out inner outer (read_from 0) sums
unfolding elem
memory-IsLedger = record {
  begins = λ d id. (refl, refl);
  begin_hides = λ d. hidden d _;
  rollback_hides = λ d. hidden d _;
  exec_hides = λ st d. hidden d _;
  lock_unprocessed_hides = λ t ids d. hidden d _;
  output_balances_hides = λ o a d. hidden d _;
  lock_balance_hides = λ t id d. hidden d _;
  commits = λ d d' id h. (
    ap (λ (x : Option Text × (State × State)). elem id x.1.0.0) (sym h),
    ap (λ (x : Option Text × (State × State)). sum_at id x.1.0.1) (sym h),
  );
  commit_fails = λ e d d' h. cc;
  marks = λ id d d' h.
      subst (λ (x : Option Text × (State × State)). Books inner (id ∷ []) nothing d x.1) h
        (marked id d.0 d.1);
  inserts_txs = λ pairs d. inserted (codes "output_txs_accumulate") pairs d;
  inserts_balance = λ pairs d h. inserted (balance_table type_out) pairs d;
  credits = λ id amount now d d' there h.
      subst
        (λ (x : Option Text × (State × State)).
          Books inner [] (λ j. if id == j then read_from 0 amount else 0) d x.1)
        h (rw there (credited id (read_from 0 amount) d.0 d.1));
  locks = λ ids found d d' h. (
    subst (λ (x : Result Text (List Text) × (State × State)). Same inner d x.1) h
        (nothing-changed inner d),
    subst (IsFound ids inner d) (found_of h) (elem-unmarked d.1.0 ids, unmarked-distinct d.1.0 ids),
  );
  finds = λ o a got d d' h. (
    sym (found_of h),
    subst (λ (x : Result Text (List AccumulateBalancesAmount) × (State × State)). Same inner d x.1)
        h (nothing-changed inner d),
  );
  locks_balance = λ id found d d' h. (
    subst (λ (x : State × State). elem id found ≡ has_balance id x.1.1)
        (ap (λ (x : Result Text (List Text) × (State × State)). x.1) h)
        (subst (λ l. elem id l ≡ has_balance id d.1.1) (found_of h)
          (found_if id (has_balance id d.1.1))),
    subst (λ (x : Result Text (List Text) × (State × State)). Same inner d x.1) h
        (nothing-changed inner d),
  );
}

abbrev output : Text → OutputAddressAccumulate
output id = record {
  id = id;
  output_id = codes "out";
  address = codes "addr";
  processed = 0;
  output_processed = 1;
  transaction_id = codes "tx";
  output_index = 0;
  created_at = noon;
}

abbrev group : List OutputAddressAccumulate
group = output (codes "a") ∷ output (codes "b") ∷ []

-- The row `b` is already processed, and its output counted.
abbrev before : State
before = (codes "b" ∷ [], (codes "bal", 5) ∷ [])

process_group-Outcome_example :
    Outcome outer
      (rows_credit node (read_from 0) sums (to_map [] group))
      (codes "a" ∷ codes "b" ∷ [])
      (before, before)
      (process_group memory node type_out group (before, before))
process_group-Outcome_example =
    process_group-Outcome memory node type_out inner outer (read_from 0) sums memory-IsLedger group
      (before, before)

-- The balance `sums` is not there yet.
abbrev fresh : State
fresh = ([], [])

abbrev one_sum : AccumulateBalancesAmount
one_sum = record {
  id = [];
  chain_id = codes "X";
  asset_id = codes "AX";
  address = codes "addr";
  total_amount = codes "70";
  utxo_count = [];
  updated_at = noon;
}

abbrev id_or : Result Text Text → Text
id_or (ok id) = id
id_or (err e) = []

abbrev txs_id : Result Text Text
txs_id = compute_id node (codes "X" ∷ codes "AX" ∷ codes "addr" ∷ codes "tx" ∷ [])
