-- ===== src/Balance/Groups.antt =====
-- The transaction of a group of rows as `processOutputs` builds it: balance/balance_manager.go.
use axia_network_v2_magellan.Prelude.{ℕ, List, [], ◌∷◌, some, map, ◌≡◌, arith, Bool-cases, inl, inr}
use axia_network_v2_magellan.Prelude.Dict.{insert, lookup, lookup-insert}
use axia_network_v2_magellan.Prelude.Eq.{◌==◌}
use axia_network_v2_magellan.Prelude.Text.{Text, text_eq, text_beq_iff}
use axia_network_v2_magellan.Db.Rows.{OutputAddressAccumulate}
use axia_network_v2_magellan.Db.Balances.{AccumulateBalancesAmount}
use axia_network_v2_magellan.Axc.Node.{Node}
use axia_network_v2_magellan.Balance.Database.{Database, ProcessType}
use axia_network_v2_magellan.Balance.Outputs.{process_group, to_map}
use axia_network_v2_magellan.Balance.Ledger.{IsLedger, View}
use axia_network_v2_magellan.Balance.Credited.{rows_credit}
use axia_network_v2_magellan.Balance.Accounted.{Outcome, process_outputs_post-Outcome}

-- Each row is kept at its id.
abbrev IsNamed : List (Text × OutputAddressAccumulate) → Type 0
IsNamed trows =
    (id : Text) (row : OutputAddressAccumulate) → lookup id trows ≡ some row → row.id ≡ id

insert-IsNamed :
    (row : OutputAddressAccumulate) (trows : List (Text × OutputAddressAccumulate))
    → IsNamed trows
    → IsNamed (insert row.id row trows)
insert-IsNamed row trows named id found h = elim (Bool-cases (row.id == id)) [
  | inl same ↦ ground (arith, lookup-insert row.id id row trows, h, same, text_beq_iff row.id id)
  | inr other ↦ named id found (ground (arith, lookup-insert row.id id row trows, h, other))
]

to_map-IsNamed :
    (rows : List OutputAddressAccumulate) (trows : List (Text × OutputAddressAccumulate))
    → IsNamed trows
    → IsNamed (to_map trows rows)
unfolding to_map
to_map-IsNamed [] trows named = named
to_map-IsNamed (row ∷ rows) trows named =
    to_map-IsNamed rows (insert row.id row trows) (insert-IsNamed row trows named)

empty-IsNamed : IsNamed []
unfolding lookup
empty-IsNamed id row h = cc

-- Let the database be a ledger of balances, where a transaction works on its own view. Then the
-- transaction of a group of rows either returns an error and the others see nothing changed, or it
-- returns none, and the others see the rows of the group that were not processed processed, each
-- balance increased by exactly what the outputs of those rows add to it, each row counted once, and
-- nothing else changed.
pub process_group-Outcome :
    {D : Type 0} (db : Database D) (node : Node) (typ : ProcessType) (inside outside : View D)
    (value : Text → ℕ) (balances : Text → Text → List AccumulateBalancesAmount)
    → IsLedger db typ inside outside value balances
    → (rows : List OutputAddressAccumulate) (d : D)
    → Outcome outside
        (rows_credit node value balances (to_map [] rows))
        (map (λ (r : OutputAddressAccumulate). r.id) rows)
        d
        (process_group db node typ rows d)
process_group-Outcome db node typ inside outside value balances ledger rows d =
    process_outputs_post-Outcome db node typ inside outside value balances ledger (to_map [] rows)
      (map (λ (r : OutputAddressAccumulate). r.id) rows) (to_map-IsNamed rows [] empty-IsNamed) d
