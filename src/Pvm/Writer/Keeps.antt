-- ===== src/Pvm/Writer/Keeps.antt =====
-- services/indexes/pvm/writer.go: a block is indexed by statements only.
use axia_network_v2_magellan.Prelude.{ℕ, ◌+◌, Bool, List, [], ◌∷◌, ◌++◌, Option, none, some}
use axia_network_v2_magellan.Prelude.Text.{Text}
use axia_network_v2_magellan.Prelude.Result.{Result, ok, err}
use axia_network_v2_magellan.Params.Query.{Ident}
use axia_network_v2_magellan.Db.Exec.{Exec, lift, ◌>>=◌}
use axia_network_v2_magellan.Db.Keeps.{
  IsClosed, Keeps, ◌then◌, each, either, lifts, pures, reads, stricts, tolerates, upserts,
}
use axia_network_v2_magellan.Db.Persist.{
  insert_pvm_blocks, insert_rewards, insert_transactions_block, insert_transactions_validator,
}
use axia_network_v2_magellan.Db.Platform.{
  insert_pvm_proposer, insert_transactions_rewards_owners,
  insert_transactions_rewards_owners_address, insert_transactions_rewards_owners_outputs,
}
use axia_network_v2_magellan.Axc.Node.{BaseTx, TransferableOutput}
use axia_network_v2_magellan.Axc.Outputs.{Writer}
use axia_network_v2_magellan.Axc.Writer.Keeps.{insert_transaction-Keeps}
use axia_network_v2_magellan.Pvm.Node.{
  Block, CommonBlock, Platform, ProposerBlock, RewardsOwner, Tx, UnsignedTx, Validator, abort_block,
  add_delegator_tx, add_subnet_validator_tx, add_validator_tx, advance_time_tx, atomic_block,
  commit_block, create_chain_tx, create_subnet_tx, export_tx, import_tx, no_owner, other_block,
  other_owner, other_tx, output_owners, proposal_block, reward_validator_tx, standard_block,
}
use axia_network_v2_magellan.Pvm.Writer.{index_transaction, index_unsigned}
use axia_network_v2_magellan.Pvm.Writer.Stakes.{
  insert_owner_addresses, insert_reward_output, insert_rewards_owner, insert_staker,
  insert_transaction_block, insert_transaction_validator, insert_transactions_rewards_owners_of,
}
use axia_network_v2_magellan.Pvm.Writer.Blocks.{
  add_all, all_tx_steps, block_steps, index_block, index_common_block, index_proposer, single_steps,
  tx_steps,
}

module _ {D : Type 0} (w : Writer D) (p : Platform) (R : D → D → Type 0)
    ⦃k : IsClosed w.session R⦄ where
  insert_transaction_block-Keeps :
      (tx_id blk_id : Ident) → Keeps w.session R (insert_transaction_block w tx_id blk_id)
  unfolding insert_transaction_block insert_transactions_block
  insert_transaction_block-Keeps tx_id blk_id = upserts _ _ _ _ _ _

  insert_owner_addresses-Keeps :
      (tx_id : Ident) (ipos : ℕ) (addrs : List (List ℕ))
      → Keeps w.session R (insert_owner_addresses w tx_id ipos addrs)
  unfolding insert_owner_addresses insert_transactions_rewards_owners_address
  insert_owner_addresses-Keeps tx_id ipos [] = pures _
  insert_owner_addresses-Keeps tx_id ipos (addr ∷ addrs) = reads _ then (λ t.
      upserts _ _ _ _ _ _ then (λ u. insert_owner_addresses-Keeps tx_id (ipos + 1) addrs))

  insert_reward_output-Keeps :
      (tx_id : Ident) (ipos : ℕ) → Keeps w.session R (insert_reward_output w tx_id ipos)
  unfolding insert_reward_output insert_transactions_rewards_owners_outputs
  insert_reward_output-Keeps tx_id ipos = upserts _ _ _ _ _ _

  insert_rewards_owner-Keeps :
      (owner : RewardsOwner) (base_tx : BaseTx) (stake : List TransferableOutput)
      → Keeps w.session R (insert_rewards_owner w owner base_tx stake)
  unfolding insert_rewards_owner insert_transactions_rewards_owners_of
      insert_transactions_rewards_owners
  insert_rewards_owner-Keeps no_owner base_tx stake = pures _
  insert_rewards_owner-Keeps (other_owner name) base_tx stake = lifts _
  insert_rewards_owner-Keeps (output_owners owner) base_tx stake =
      insert_owner_addresses-Keeps _ _ _
      then (λ u. each _ (insert_reward_output-Keeps base_tx.id) then (λ u'. upserts _ _ _ _ _ _))

  insert_staker-Keeps :
      (blk_id : Ident) (base_tx : BaseTx) (stake : List TransferableOutput) (validator : Validator)
      (owner : RewardsOwner)
      → Keeps w.session R (insert_staker w p blk_id base_tx stake validator owner)
  unfolding insert_staker insert_transaction_validator insert_transactions_validator
  insert_staker-Keeps blk_id base_tx stake validator owner = upserts _ _ _ _ _ _ then (λ u.
      insert_transaction_block-Keeps _ _
      then (λ u'. insert_rewards_owner-Keeps owner base_tx stake))

  index_transaction-Keeps :
      (blk_id : Ident) (tx : Tx) (genesis : Bool) (t : UnsignedTx)
      → Keeps w.session R (index_unsigned w p blk_id tx genesis t)
  unfolding index_unsigned insert_rewards
  index_transaction-Keeps blk_id tx genesis (add_validator_tx base_tx stake validator owner) =
      insert_staker-Keeps _ _ _ _ _ then (λ u. insert_transaction-Keeps w R _ _ _ _ _ _ _ _ _)
  index_transaction-Keeps blk_id tx genesis (add_delegator_tx base_tx stake validator owner) =
      insert_staker-Keeps _ _ _ _ _ then (λ u. insert_transaction-Keeps w R _ _ _ _ _ _ _ _ _)
  index_transaction-Keeps blk_id tx genesis (add_subnet_validator_tx base_tx) =
      insert_transaction_block-Keeps _ _ then (λ u. insert_transaction-Keeps w R _ _ _ _ _ _ _ _ _)
  index_transaction-Keeps blk_id tx genesis (create_subnet_tx base_tx) =
      insert_transaction_block-Keeps _ _ then (λ u. insert_transaction-Keeps w R _ _ _ _ _ _ _ _ _)
  index_transaction-Keeps blk_id tx genesis (create_chain_tx base_tx) =
      insert_transaction_block-Keeps _ _ then (λ u. insert_transaction-Keeps w R _ _ _ _ _ _ _ _ _)
  index_transaction-Keeps blk_id tx genesis (import_tx base_tx imported source) =
      insert_transaction_block-Keeps _ _ then (λ u. insert_transaction-Keeps w R _ _ _ _ _ _ _ _ _)
  index_transaction-Keeps blk_id tx genesis (export_tx base_tx exported dest) =
      insert_transaction_block-Keeps _ _ then (λ u. insert_transaction-Keeps w R _ _ _ _ _ _ _ _ _)
  index_transaction-Keeps blk_id tx genesis advance_time_tx = pures _
  index_transaction-Keeps blk_id tx genesis (reward_validator_tx id tx_id prefers) =
      upserts _ _ _ _ _ _
  index_transaction-Keeps blk_id tx genesis (other_tx name) = lifts _

  -- Each of the steps keeps to the relation.
  KeepsAll : List (Exec D Unit) → Type 0
  KeepsAll [] = Unit
  KeepsAll (m ∷ steps) = Keeps w.session R m × KeepsAll steps

  KeepsAll-append : (l l' : List (Exec D Unit)) → KeepsAll l → KeepsAll l' → KeepsAll (l ++ l')
  unfolding KeepsAll
  KeepsAll-append [] l' h h' = h'
  KeepsAll-append (m ∷ l) l' (k, h) h' = (k, KeepsAll-append l l' h h')

  add_all-holds :
      (steps : List (Exec D Unit)) (errs : Option Text)
      → KeepsAll steps
      → (d : D) → R d (add_all steps errs d).1
  unfolding add_all KeepsAll
  add_all-holds [] errs h d = k.same d
  add_all-holds (m ∷ steps) errs (h, hs) d =
      k.trans _ _ _ (h.holds d) (add_all-holds steps _ hs (m d).1)

  tx_steps-KeepsAll :
      (version : ℕ) (blk_id : Ident) (tx : Tx) → KeepsAll (tx_steps w p version blk_id tx)
  unfolding tx_steps index_transaction KeepsAll
  tx_steps-KeepsAll version blk_id tx = (lifts _, (index_transaction-Keeps _ _ _ _, tt))

  all_tx_steps-KeepsAll :
      (version : ℕ) (blk_id : Ident) (txs : List Tx)
      → KeepsAll (all_tx_steps w p version blk_id txs)
  unfolding all_tx_steps KeepsAll
  all_tx_steps-KeepsAll version blk_id [] = tt
  all_tx_steps-KeepsAll version blk_id (tx ∷ txs) =
      KeepsAll-append _ _ (tx_steps-KeepsAll version blk_id tx)
        (all_tx_steps-KeepsAll version blk_id txs)

  index_common_block-Keeps :
      (blk_id : Ident) (typ : ℕ) (blk : CommonBlock) (block_bytes : List ℕ)
      → Keeps w.session R (index_common_block w p blk_id typ blk block_bytes)
  unfolding index_common_block insert_pvm_blocks
  index_common_block-Keeps blk_id typ blk block_bytes = upserts _ _ _ _ _ _

  single_steps-KeepsAll :
      (version : ℕ) (blk_id : Ident) (typ : ℕ) (blk : CommonBlock) (tx : Tx) (block_bytes : List ℕ)
      → KeepsAll (single_steps w p version blk_id typ blk tx block_bytes)
  unfolding single_steps index_transaction KeepsAll
  single_steps-KeepsAll version blk_id typ blk tx block_bytes =
      (lifts _, (index_common_block-Keeps _ _ _ _, (index_transaction-Keeps _ _ _ _, tt)))

  index_steps : Result Text (List (Exec D Unit)) → Exec D Unit
  index_steps r = lift r >>= λ steps. add_all steps none

  index_steps-ok :
      (steps : List (Exec D Unit)) → KeepsAll steps → Keeps w.session R (index_steps (ok steps))
  unfolding index_steps ◌>>=◌ lift
  index_steps-ok steps h = record { holds = add_all-holds steps none h }

  index_steps-err : (e : Text) → Keeps w.session R (index_steps (err e))
  unfolding index_steps ◌>>=◌ lift
  index_steps-err e = record { holds = k.same }

  block_steps-Keeps :
      (version : ℕ) (blk_id : Ident) (block_bytes : List ℕ) (blk : Block)
      → Keeps w.session R (index_steps (block_steps w p version blk_id block_bytes blk))
  unfolding block_steps KeepsAll
  block_steps-Keeps version blk_id block_bytes (proposal_block blk tx) =
      index_steps-ok _ (single_steps-KeepsAll _ _ _ _ _ _)
  block_steps-Keeps version blk_id block_bytes (standard_block blk txs) =
      index_steps-ok _ (index_common_block-Keeps _ _ _ _, all_tx_steps-KeepsAll _ _ txs)
  block_steps-Keeps version blk_id block_bytes (atomic_block blk tx) =
      index_steps-ok _ (single_steps-KeepsAll _ _ _ _ _ _)
  block_steps-Keeps version blk_id block_bytes (abort_block blk) =
      index_steps-ok _ (index_common_block-Keeps _ _ _ _, tt)
  block_steps-Keeps version blk_id block_bytes (commit_block blk) =
      index_steps-ok _ (index_common_block-Keeps _ _ _ _, tt)
  block_steps-Keeps version blk_id block_bytes (other_block name) = index_steps-err _

  index_proposer-Keeps :
      (proposer_bytes : List ℕ) (blk_id : Ident) (pb : Option ProposerBlock)
      → Keeps w.session R (index_proposer w p proposer_bytes blk_id pb)
  unfolding index_proposer insert_pvm_proposer
  index_proposer-Keeps proposer_bytes blk_id none = pures _
  index_proposer-Keeps proposer_bytes blk_id (some pb) =
      tolerates _ _ then (λ u. either _ (stricts _ _) (pures _))

  pub index_block-Keeps :
      (proposer_bytes : List ℕ) → Keeps w.session R (index_block w p proposer_bytes)
  unfolding index_block index_steps
  index_block-Keeps proposer_bytes = lifts _ then (λ (block_bytes, version, blk, proposer).
      index_proposer-Keeps _ _ _ then (λ u. block_steps-Keeps version _ block_bytes blk))
