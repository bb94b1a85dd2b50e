-- ===== src/Pvm/Writer/Blocks.antt =====
-- services/indexes/pvm/writer.go: `indexBlock`, `Bootstrap` and what they call. `wrappers.Errs` keeps
-- the first error, and the arguments of its `Add` are run before it looks at any.
use axia_network_v2_magellan.Prelude.{
  ℕ, ◌+◌, ◌%◌, ◌^◌, true, false, List, [], ◌∷◌, ◌++◌, Option, none, some, if◌then◌else◌, length,
  ltb, replicate,
}
use axia_network_v2_magellan.Prelude.Text.{Text, codes}
use axia_network_v2_magellan.Prelude.Result.{Result, ok, err}
use axia_network_v2_magellan.Models.{abort_type, commit_type, proposal_type, standard_type}
use axia_network_v2_magellan.Params.Query.{Ident}
use axia_network_v2_magellan.Db.Exec.{Exec, lift, pure, ◌>>=◌, ◌>>◌}
use axia_network_v2_magellan.Db.Persist.{insert_pvm_blocks}
use axia_network_v2_magellan.Db.Transaction.{Connection, in_transaction}
use axia_network_v2_magellan.Db.Platform.{PvmProposer, insert_pvm_proposer}
use axia_network_v2_magellan.Axc.Outputs.{Writer, process_state_out}
use axia_network_v2_magellan.Axc.Writer.{max_serialization_len}
use axia_network_v2_magellan.Pvm.Node.{
  Block, CommonBlock, Genesis, Platform, ProposerBlock, SignedBlock, Tx, Utxo, abort_block,
  atomic_block, commit_block, other_block, proposal_block, standard_block,
}
use axia_network_v2_magellan.Pvm.Writer.{index_transaction}

-- The first error, of those so far and a next one
abbrev pub add_err : Option Text → Result Text Unit → Option Text
add_err none (ok u) = none
add_err none (err e) = some e
add_err (some e) r = some e

abbrev pub of_errs : Option Text → Result Text Unit
of_errs none = ok tt
of_errs (some e) = err e

-- Steps that all run, whichever of them fail
unfoldable pub add_all : {D : Type 0} → List (Exec D Unit) → Option Text → Exec D Unit
add_all [] errs d = (of_errs errs, d)
add_all (m ∷ steps) errs d = let (r, d') = m d in add_all steps (add_err errs r) d'

-- `initializeTx`: both forms are marshalled, and then the transaction gets its bytes. An error leaves it
-- as it was.
abbrev pub initialized :
    Platform → Tx → Result Text (List ℕ) → Result Text (List ℕ) → Result Text Tx
initialized p tx (err e) signed = err e
initialized p tx (ok unsigned_bytes) (err e) = err e
initialized p tx (ok unsigned_bytes) (ok signed_bytes) =
    ok (p.initialize tx unsigned_bytes signed_bytes)

unfoldable pub initialize_tx : Platform → ℕ → Tx → Result Text Tx
initialize_tx p version tx =
    initialized p tx (p.marshal_unsigned version tx.unsigned_tx) (p.marshal_signed version tx)

-- `ChainID`, of 32 zero bytes
abbrev pub genesis_id : Ident
genesis_id = replicate 32 0

abbrev pub done : {A : Type 0} → Result Text A → Result Text Unit
done (ok a) = ok tt
done (err e) = err e

abbrev pub or_same : {A : Type 0} → Result Text A → A → A
or_same (ok a) b = a
or_same (err e) b = b

module _ {D : Type 0} (w : Writer D) (p : Platform) where
  unfoldable pub index_common_block : Ident → ℕ → CommonBlock → List ℕ → Exec D Unit
  index_common_block blk_id blk_type blk block_bytes =
      insert_pvm_blocks w.session
        (record {
          id = w.node.id_string blk_id;
          chain_id = w.chain_id;
          block_type = blk_type;
          parent_id = w.node.id_string blk.parent;
          serialization =
              if ltb max_serialization_len (length block_bytes) then [] else block_bytes;
          created_at = w.ctx_time;
          height = blk.height;
        })
        w.perform_updates

  -- A block's transaction: it is given its bytes, and indexed whether or not that failed.
  unfoldable pub tx_steps : ℕ → Ident → Tx → List (Exec D Unit)
  tx_steps version blk_id tx =
      let r = initialize_tx p version tx in
      lift (done r) ∷ index_transaction w p blk_id (or_same r tx) false ∷ []

  unfoldable pub all_tx_steps : ℕ → Ident → List Tx → List (Exec D Unit)
  all_tx_steps version blk_id [] = []
  all_tx_steps version blk_id (tx ∷ txs) =
      tx_steps version blk_id tx ++ all_tx_steps version blk_id txs

  -- The steps of a block with one transaction: the block's row is written after the bytes are given.
  unfoldable pub single_steps : ℕ → Ident → ℕ → CommonBlock → Tx → List ℕ → List (Exec D Unit)
  single_steps version blk_id blk_type blk tx block_bytes =
      let r = initialize_tx p version tx in
      lift (done r)
      ∷ index_common_block blk_id blk_type blk block_bytes
      ∷ index_transaction w p blk_id (or_same r tx) false
      ∷ []

  -- The steps of a block, by its type. An atomic block is stored with the type of a proposal.
  unfoldable pub block_steps : ℕ → Ident → List ℕ → Block → Result Text (List (Exec D Unit))
  block_steps version blk_id block_bytes (proposal_block blk tx) =
      ok (single_steps version blk_id proposal_type blk tx block_bytes)
  block_steps version blk_id block_bytes (standard_block blk txs) =
      ok (index_common_block blk_id standard_type blk block_bytes ∷ all_tx_steps version blk_id txs)
  block_steps version blk_id block_bytes (atomic_block blk tx) =
      ok (single_steps version blk_id proposal_type blk tx block_bytes)
  block_steps version blk_id block_bytes (abort_block blk) =
      ok (index_common_block blk_id abort_type blk block_bytes ∷ [])
  block_steps version blk_id block_bytes (commit_block blk) =
      ok (index_common_block blk_id commit_type blk block_bytes ∷ [])
  block_steps version blk_id block_bytes (other_block name) = err (codes "unknown type " ++ name)

  abbrev pub proposer_row : ProposerBlock → Ident → Ident → Option SignedBlock → PvmProposer
  proposer_row pb blk_id proposer_blk_id (some signed) = record {
    id = w.node.id_string pb.id;
    parent_id = w.node.id_string pb.parent_id;
    blk_id = w.node.id_string blk_id;
    proposer_blk_id = w.node.id_string proposer_blk_id;
    core_chain_height = signed.core_chain_height;
    proposer = p.node_id_string signed.proposer;
    time_stamp = signed.timestamp;
    created_at = w.ctx_time;
  }
  proposer_row pb blk_id proposer_blk_id none = record {
    id = w.node.id_string pb.id;
    parent_id = w.node.id_string pb.parent_id;
    blk_id = w.node.id_string blk_id;
    proposer_blk_id = w.node.id_string proposer_blk_id;
    core_chain_height = 0;
    proposer = [];
    time_stamp = w.ctx_time;
    created_at = w.ctx_time;
  }

  unfoldable pub index_proposer : List ℕ → Ident → Option ProposerBlock → Exec D Unit
  index_proposer proposer_bytes blk_id none = pure tt
  index_proposer proposer_bytes blk_id (some pb) =
      insert_pvm_proposer w.session (proposer_row pb blk_id (p.hash_id proposer_bytes) pb.signed)
        w.perform_updates

  -- A block that is decoded: its bytes, its version, and the proposer block around it
  unfoldable pub decoded_block :
      List ℕ → Result Text ProposerBlock → Result Text (List ℕ × ℕ × Block × Option ProposerBlock)
  decoded_block proposer_bytes (ok pb) = elim (p.unmarshal pb.block) [
    | ok (version, blk) ↦ ok (pb.block, version, blk, some pb)
    | err e ↦ err (p.propagate e (codes "proposer bytes"))
  ]
  decoded_block proposer_bytes (err e') = elim (p.unmarshal proposer_bytes) [
    | ok (version, blk) ↦ ok (proposer_bytes, version, blk, none)
    | err e ↦ err (p.propagate e (codes "block bytes"))
  ]

  unfoldable pub index_block : List ℕ → Exec D Unit
  index_block proposer_bytes = do
    (block_bytes, version, blk, proposer) ←
        lift (decoded_block proposer_bytes (p.parse_proposer proposer_bytes))
    let blk_id = p.hash_id block_bytes
    index_proposer proposer_bytes blk_id proposer
    steps ← lift (block_steps version blk_id block_bytes blk)
    add_all steps none

  -- `Consume`
  unfoldable pub consume : Connection D → List ℕ → Exec D Unit
  consume conn body = in_transaction conn (index_block body)

  -- `Bootstrap` on a genesis that is decoded: the first error of an output ends it, and the
  -- transactions are all indexed. (A cancelled context does not end the loops: `break` leaves the
  -- `select` only.)
  unfoldable pub bootstrap_utxos : ℕ → List Utxo → Exec D Unit
  bootstrap_utxos idx [] = pure tt
  bootstrap_utxos idx (utxo ∷ utxos) =
      process_state_out w utxo.out genesis_id (idx % 2 ^ 32) utxo.asset_id 0 0 w.chain_id false true
      >> bootstrap_utxos (idx + 1) utxos

  unfoldable pub genesis_steps : List Tx → List (Exec D Unit)
  genesis_steps [] = []
  genesis_steps (tx ∷ txs) = index_transaction w p genesis_id tx true ∷ genesis_steps txs

  unfoldable pub bootstrap : Genesis → Exec D Unit
  bootstrap g = bootstrap_utxos 0 g.utxos >> add_all (genesis_steps (g.validators ++ g.chains)) none
