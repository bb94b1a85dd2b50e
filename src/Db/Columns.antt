-- ===== src/Db/Columns.antt =====
-- db/dbmodel.go: the columns that the statements write.
use axia_network_v2_magellan.Prelude.{ℕ, List, [], ◌∷◌, Option, none, some, map}
use axia_network_v2_magellan.Prelude.Text.{Text, codes}
use axia_network_v2_magellan.Db.Exec.{Value, text, num, bytes, flag, time, Cond, equals}
use axia_network_v2_magellan.Db.Rows.{
  Transactions, OutputsRedeeming, Outputs, OutputAddressAccumulate, Rewards,
}

abbrev pub Row : Type 0
Row = List (Text × Value)

abbrev pub where_key : List (Text × Value) → List Cond
where_key = map (λ (p : Text × Value). equals p.0 p.1)

abbrev pub transactions_columns : Transactions → Row
transactions_columns v =
    (codes "chain_id", text v.chain_id)
    ∷ (codes "type", text v.tx_type)
    ∷ (codes "memo", bytes v.memo)
    ∷ (codes "created_at", time v.created_at)
    ∷ (codes "canonical_serialization", bytes (some v.canonical_serialization))
    ∷ (codes "txfee", num v.txfee)
    ∷ (codes "genesis", flag v.genesis)
    ∷ (codes "network_id", num v.network_id)
    ∷ []

abbrev pub transactions_sets : Transactions → Row
transactions_sets v =
    (codes "chain_id", text v.chain_id)
    ∷ (codes "type", text v.tx_type)
    ∷ (codes "memo", bytes v.memo)
    ∷ (codes "canonical_serialization", bytes (some v.canonical_serialization))
    ∷ (codes "txfee", num v.txfee)
    ∷ (codes "genesis", flag v.genesis)
    ∷ (codes "network_id", num v.network_id)
    ∷ (codes "created_at", time v.created_at)
    ∷ []

abbrev pub outputs_redeeming_columns : OutputsRedeeming → Row
outputs_redeeming_columns v =
    (codes "redeemed_at", time v.redeemed_at)
    ∷ (codes "redeeming_transaction_id", text v.redeeming_transaction_id)
    ∷ (codes "amount", num v.amount)
    ∷ (codes "output_index", num v.output_index)
    ∷ (codes "intx", text v.intx)
    ∷ (codes "asset_id", text v.asset_id)
    ∷ (codes "created_at", time v.created_at)
    ∷ (codes "chain_id", text v.chain_id)
    ∷ []

abbrev pub outputs_redeeming_sets : OutputsRedeeming → Row
outputs_redeeming_sets v =
    (codes "redeeming_transaction_id", text v.redeeming_transaction_id)
    ∷ (codes "amount", num v.amount)
    ∷ (codes "output_index", num v.output_index)
    ∷ (codes "intx", text v.intx)
    ∷ (codes "asset_id", text v.asset_id)
    ∷ (codes "chain_id", text v.chain_id)
    ∷ (codes "created_at", time v.created_at)
    ∷ []

-- Both statements write the same columns, in this order.
abbrev pub outputs_columns : Outputs → Row
outputs_columns v =
    (codes "chain_id", text v.chain_id)
    ∷ (codes "transaction_id", text v.transaction_id)
    ∷ (codes "output_index", num v.output_index)
    ∷ (codes "asset_id", text v.asset_id)
    ∷ (codes "output_type", num v.output_type)
    ∷ (codes "amount", num v.amount)
    ∷ (codes "locktime", num v.locktime)
    ∷ (codes "threshold", num v.threshold)
    ∷ (codes "group_id", num v.group_id)
    ∷ (codes "payload", bytes v.payload)
    ∷ (codes "stake_locktime", num v.stake_locktime)
    ∷ (codes "stake", flag v.stake)
    ∷ (codes "frozen", flag v.frozen)
    ∷ (codes "stakeableout", flag v.stakeableout)
    ∷ (codes "genesisutxo", flag v.genesisutxo)
    ∷ (codes "created_at", time v.created_at)
    ∷ []

abbrev pub signature_column : Option (List ℕ) → Row
signature_column none = []
signature_column (some sig) = (codes "redeeming_signature", bytes (some sig)) ∷ []

abbrev pub accumulate_columns : OutputAddressAccumulate → Row
accumulate_columns v =
    (codes "output_id", text v.output_id)
    ∷ (codes "address", text v.address)
    ∷ (codes "transaction_id", text v.transaction_id)
    ∷ (codes "output_index", num v.output_index)
    ∷ (codes "created_at", time v.created_at)
    ∷ []

abbrev pub rewards_sets : Rewards → Row
rewards_sets v =
    (codes "block_id", text v.block_id)
    ∷ (codes "txid", text v.txid)
    ∷ (codes "shouldprefercommit", flag v.shouldprefercommit)
    ∷ (codes "created_at", time v.created_at)
    ∷ []
