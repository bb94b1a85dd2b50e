-- ===== src/Tests/DbRows.antt =====
-- Writing rows again, in a table in memory.
use axia_network_v2_magellan.Prelude.{
  Bool, true, false, ◌&&◌, List, [], ◌∷◌, Option, none, some, ◌≡◌, ◌↔◌, refl, arith,
}
use axia_network_v2_magellan.Prelude.Eq.{Eq}
use axia_network_v2_magellan.Prelude.Dict.{lookup}
use axia_network_v2_magellan.Prelude.Text.{Text, codes, text_eq, text_beq, text_beq_iff}
use axia_network_v2_magellan.Db.Exec.{text, num, bytes, time, Cond, equals}
use axia_network_v2_magellan.Db.Rows.{Transactions, OutputsRedeeming, OutputAddresses, Rewards}
use axia_network_v2_magellan.Db.Columns.{
  Row, transactions_columns, outputs_redeeming_sets, rewards_sets,
}
use axia_network_v2_magellan.Db.Persist.{
  insert_transactions, insert_outputs_redeeming, insert_rewards, insert_output_addresses,
}
use axia_network_v2_magellan.Db.Table.{IsTable}
use axia_network_v2_magellan.Db.OneTable.{one_table, one_table-IsTable}
use axia_network_v2_magellan.Db.Rewrite.{
  id_key, address_key, Leaves, Stored, Sticks, Signed, insert_transactions-Stored,
  insert_outputs_redeeming-Sticks, insert_rewards-Sticks, insert_output_addresses-Signed,
}
use axia_network_v2_magellan.Tests.Setting.{noon}

abbrev pub first_text : Row → Option Text
first_text ((c, text i) ∷ rest) = some i
first_text other = none

abbrev pub only_text : List Cond → Option Text
only_text (equals c (text i) ∷ []) = some i
only_text other = none

pub id_rows-IsTable : (t : Text) → IsTable (one_table first_text only_text t) t id_key lookup
id_rows-IsTable t = one_table-IsTable first_text only_text t id_key (λ k rest. refl) (λ k. refl)

abbrev two_texts : Row → Option (Text × Text)
two_texts ((c, text i) ∷ (c', text j) ∷ rest) = some (i, j)
two_texts other = none

abbrev both_texts : List Cond → Option (Text × Text)
both_texts (equals c (text i) ∷ equals c' (text j) ∷ []) = some (i, j)
both_texts other = none

abbrev pair_beq : Text × Text → Text × Text → Bool
pair_beq p q = text_beq p.0 q.0 && text_beq p.1 q.1

pair_beq_iff : (p q : Text × Text) → (pair_beq p q ≡ true) ↔ (p ≡ q)
pair_beq_iff p q = ground (arith, text_beq_iff p.0 q.0, text_beq_iff p.1 q.1)

instance abbrev pair_eq : Eq (Text × Text)
pair_eq = record { beq = pair_beq; beq_iff = pair_beq_iff }

address_rows-IsTable : (t : Text) → IsTable (one_table two_texts both_texts t) t address_key lookup
address_rows-IsTable t =
    one_table-IsTable two_texts both_texts t address_key (λ k rest. refl) (λ k. refl)

abbrev pub paid_tx : Transactions
paid_tx = record {
  id = codes "tx";
  chain_id = codes "X";
  tx_type = codes "base";
  memo = none;
  canonical_serialization = 1 ∷ [];
  txfee = 7;
  network_id = 1;
  genesis = false;
  created_at = noon;
}

-- A row of the transaction with another fee
abbrev pub old_tx : List (Text × Row)
old_tx = (codes "tx", (codes "id", text (codes "tx")) ∷ (codes "txfee", num 9) ∷ []) ∷ []

insert_transactions-Stored_example :
    Leaves lookup (codes "tx") old_tx (Stored (transactions_columns paid_tx)) (
      insert_transactions
        (one_table first_text only_text (codes "avm_transactions"))
        paid_tx
        true
        old_tx)
insert_transactions-Stored_example =
    insert_transactions-Stored (one_table first_text only_text (codes "avm_transactions")) lookup
      (id_rows-IsTable (codes "avm_transactions")) paid_tx old_tx

abbrev spent_output : OutputsRedeeming
spent_output = record {
  id = codes "out";
  redeemed_at = noon;
  redeeming_transaction_id = codes "tx";
  amount = 5;
  output_index = 0;
  intx = codes "in";
  asset_id = codes "AXC";
  chain_id = codes "X";
  created_at = noon;
}

insert_outputs_redeeming-Sticks_example :
    Leaves lookup
      (codes "out")
      []
      (λ row.
        Stored (outputs_redeeming_sets spent_output) row
        × Sticks lookup (codes "out") [] (codes "redeemed_at") (time noon) row)
      (insert_outputs_redeeming
        (one_table first_text only_text (codes "avm_outputs_redeeming"))
        spent_output
        true
        [])
insert_outputs_redeeming-Sticks_example =
    insert_outputs_redeeming-Sticks (one_table first_text only_text (codes "avm_outputs_redeeming"))
      lookup (id_rows-IsTable (codes "avm_outputs_redeeming")) spent_output []

abbrev reward : Rewards
reward = record {
  id = codes "reward";
  block_id = codes "block";
  txid = codes "tx";
  shouldprefercommit = true;
  created_at = noon;
  processed = 0;
}

abbrev processed_reward : List (Text × Row)
processed_reward =
    (codes "reward", (codes "id", text (codes "reward")) ∷ (codes "processed", num 1) ∷ []) ∷ []

insert_rewards-Sticks_example :
    Leaves lookup
      (codes "reward")
      processed_reward
      (λ row.
        Stored (rewards_sets reward) row
        × Sticks lookup (codes "reward") processed_reward (codes "processed") (num 0) row)
      (insert_rewards
        (one_table first_text only_text (codes "rewards"))
        reward
        true
        processed_reward)
insert_rewards-Sticks_example =
    insert_rewards-Sticks (one_table first_text only_text (codes "rewards")) lookup
      (id_rows-IsTable (codes "rewards")) reward processed_reward

abbrev owner : OutputAddresses
owner = record {
  output_id = codes "out";
  address = codes "addr";
  redeeming_signature = none;
  created_at = noon;
  updated_at = noon;
}

abbrev signed_owner : List ((Text × Text) × Row)
signed_owner =
    ((codes "out", codes "addr"), (codes "redeeming_signature", bytes (some (3 ∷ []))) ∷ []) ∷ []

insert_output_addresses-Signed_example :
    Leaves lookup
      (codes "out", codes "addr")
      signed_owner
      (λ row.
        Stored ((codes "created_at", time noon) ∷ (codes "updated_at", time noon) ∷ []) row
        × Signed
            (one_table two_texts both_texts (codes "avm_output_addresses"))
            lookup
            (codes "out", codes "addr")
            signed_owner
            none
            row)
      (insert_output_addresses
        (one_table two_texts both_texts (codes "avm_output_addresses"))
        owner
        true
        signed_owner)
insert_output_addresses-Signed_example =
    insert_output_addresses-Signed (one_table two_texts both_texts (codes "avm_output_addresses"))
      lookup (address_rows-IsTable (codes "avm_output_addresses")) owner signed_owner
