-- ===== src/Avm/Writer.antt =====
-- services/indexes/avm/writer.go: a transaction of the exchange chain, on the writer of
-- services/indexes/axc.
pub mod Stored
use axia_network_v2_magellan.Prelude.{
  ℕ, ◌+◌, ◌%◌, ◌^◌, Bool, true, false, List, [], ◌∷◌, ◌++◌, Option, none, some, map,
}
use axia_network_v2_magellan.Prelude.Text.{Text, codes}
use axia_network_v2_magellan.Prelude.Result.{Result, ok, err}
use axia_network_v2_magellan.Models.{string}
use axia_network_v2_magellan.Models
use axia_network_v2_magellan.Params.Query.{Ident}
use axia_network_v2_magellan.Db.Exec.{Exec, for_each, lift, pure, ◌>>=◌, ◌>>◌}
use axia_network_v2_magellan.Db.Platform.{insert_assets, insert_transactions_epoch}
use axia_network_v2_magellan.Db.Transaction.{Connection, in_transaction}
use axia_network_v2_magellan.Axc.Node.{
  BaseTx, Credential, State, TransferableInput, TransferableOutput,
}
use axia_network_v2_magellan.Axc.Outputs.{Writer, insert_transaction_outs, process_state_out}
use axia_network_v2_magellan.Axc.Writer.{insert_transaction}
use axia_network_v2_magellan.Avm.Node.{
  CreateAssetTx, Exchange, GenesisAsset, GenesisChain, Operation, Tx, UnsignedTx, Vertex,
  create_asset_tx, create_chain, export_tx, import_tx, operation_tx, other_chain, other_tx,
  plain_tx,
}

-- The inputs that an operation's outputs are used by, with an empty transfer: no amount
abbrev pub op_input : Ident → Ident × ℕ → TransferableInput
op_input asset u = record { tx_id = u.0; output_index = u.1; asset_id = asset; amount = 0 }

unfoldable pub op_inputs : List Operation → List TransferableInput
op_inputs [] = []
op_inputs (op ∷ ops) = map (op_input op.asset_id) op.utxo_ids ++ op_inputs ops

module _ {D : Type 0} (w : Writer D) where
  -- The outputs of the base transaction, before those of its states: the count of outputs after them.
  unfoldable pub first_outs : Ident → List TransferableOutput → ℕ → Exec D ℕ
  first_outs tx_id [] count = pure count
  first_outs tx_id (out ∷ outs) count =
      insert_transaction_outs w count 0 out tx_id w.chain_id false false
      >> first_outs tx_id outs ((count + 1) % 2 ^ 32)

  -- The loop over outputs of one asset: the count, the amount and the sum of AXC after them.
  unfoldable pub state_outs : Ident → Ident → List State → ℕ → ℕ × ℕ → Exec D (ℕ × (ℕ × ℕ))
  state_outs tx_id asset [] count sums = pure (count, sums)
  state_outs tx_id asset (out ∷ outs) count sums = do
    next ← process_state_out w out tx_id count asset sums.0 sums.1 w.chain_id false false
    state_outs tx_id asset outs ((count + 1) % 2 ^ 32) next

  unfoldable pub operation_outs : Ident → List Operation → ℕ → ℕ × ℕ → Exec D (ℕ × (ℕ × ℕ))
  operation_outs tx_id [] count sums = pure (count, sums)
  operation_outs tx_id (op ∷ ops) count sums = do
    (next, r) ← state_outs tx_id op.asset_id op.outs count sums
    operation_outs tx_id ops next r

  unfoldable pub insert_operation_tx :
      List ℕ → List ℕ → BaseTx → List Operation → List Credential → Bool → Exec D Unit
  insert_operation_tx tx_bytes unsigned_bytes base_tx ops creds genesis = do
    count ← first_outs base_tx.id base_tx.outs 0
    (last, sums) ← operation_outs base_tx.id ops count (0, 0)
    insert_transaction w tx_bytes unsigned_bytes base_tx creds (string Models.operation)
        (some (record { ins = op_inputs ops; chain_id = w.chain_id })) none sums.1 genesis

  -- The loop over the states of a new asset
  unfoldable pub asset_states : Ident → List (List State) → ℕ → ℕ × ℕ → Exec D (ℕ × (ℕ × ℕ))
  asset_states tx_id [] count sums = pure (count, sums)
  asset_states tx_id (state ∷ states) count sums = do
    (next, r) ← state_outs tx_id tx_id state count sums
    asset_states tx_id states next r

  unfoldable pub insert_create_asset_tx :
      List ℕ → List ℕ → CreateAssetTx → List Credential → Text → Bool → Exec D Unit
  insert_create_asset_tx tx_bytes unsigned_bytes tx creds alias genesis = do
    count ← first_outs tx.base_tx.id tx.base_tx.outs 0
    (last, sums) ← asset_states tx.base_tx.id tx.states count (0, 0)
    insert_assets w.session
        (record {
          id = w.node.id_string tx.base_tx.id;
          chain_id = w.chain_id;
          name = tx.name;
          symbol = tx.symbol;
          denomination = tx.denomination;
          alias = alias;
          current_supply = sums.0;
          created_at = w.ctx_time;
        })
        w.perform_updates
    insert_transaction w tx_bytes unsigned_bytes tx.base_tx creds (string Models.create_asset) none
        none sums.1 genesis

  -- The switch of `insertTxInternal`
  unfoldable pub insert_unsigned : List ℕ → Tx → UnsignedTx → Exec D Unit
  insert_unsigned tx_bytes tx (create_asset_tx asset) =
      insert_create_asset_tx tx_bytes tx.unsigned_bytes asset tx.creds [] false
  insert_unsigned tx_bytes tx (operation_tx base_tx ops) =
      insert_operation_tx tx_bytes tx.unsigned_bytes base_tx ops tx.creds false
  insert_unsigned tx_bytes tx (import_tx base_tx imported source_chain) =
      insert_transaction w tx_bytes tx.unsigned_bytes base_tx tx.creds (string Models.avm_import)
        (some (record { ins = imported; chain_id = w.node.id_string source_chain })) none 0 false
  insert_unsigned tx_bytes tx (export_tx base_tx exported destination_chain) =
      insert_transaction w tx_bytes tx.unsigned_bytes base_tx tx.creds (string Models.avm_export)
        none
        (some (record {
          outs = exported;
          stake = false;
          chain_id = w.node.id_string destination_chain;
        }))
        0 false
  insert_unsigned tx_bytes tx (plain_tx base_tx) =
      insert_transaction w tx_bytes tx.unsigned_bytes base_tx tx.creds (string Models.base) none
        none 0 false
  insert_unsigned tx_bytes tx (other_tx name) = lift (err (codes "unknown tx type " ++ name))

  unfoldable pub insert_tx_internal : Tx → List ℕ → Exec D Unit
  insert_tx_internal tx tx_bytes = insert_unsigned tx_bytes tx tx.unsigned_tx

  module _ (x : Exchange) where
    abbrev initialized : List ℕ → Tx → Result Text (List ℕ) → Result Text Tx
    initialized bytes tx (ok unsigned_bytes) = ok (x.initialize tx unsigned_bytes bytes)
    initialized bytes tx (err e) = err e

    abbrev parsed : List ℕ → Result Text (ℕ × Tx) → Result Text Tx
    parsed bytes (ok (version, tx)) =
        initialized bytes tx (x.marshal_unsigned version tx.unsigned_tx)
    parsed bytes (err e) = err e

    unfoldable pub parse_tx : List ℕ → Result Text Tx
    parse_tx bytes = parsed bytes (x.unmarshal bytes)

    unfoldable pub insert_tx : List ℕ → Exec D Unit
    insert_tx tx_bytes = do tx ← lift (parse_tx tx_bytes); insert_tx_internal tx tx_bytes

    -- `Consume`
    unfoldable pub consume : Connection D → List ℕ → Exec D Unit
    consume conn body = in_transaction conn (insert_tx body)

    abbrev or_propagate : {A : Type 0} → Text → Result Text A → Result Text A
    or_propagate message (ok a) = ok a
    or_propagate message (err e) = err (x.propagate e message)

    -- An error of the insert is wrapped too.
    abbrev propagated : Text → Exec D Unit → Exec D Unit
    propagated message m d = let (r, d') = m d in (or_propagate message r, d')

    unfoldable pub genesis_assets : ℕ → List GenesisAsset → Exec D Unit
    genesis_assets version [] = pure tt
    genesis_assets version (g ∷ gs) = do
      tx_bytes ← lift (
          or_propagate (codes "Failed to serialize wrapped avm genesis tx")
            (x.marshal_asset_tx version g.asset))
      unsigned_bytes ← lift (x.marshal_asset version g.asset)
      propagated (codes "Failed to index avm genesis tx")
          (insert_create_asset_tx tx_bytes unsigned_bytes g.asset [] g.alias true)
      genesis_assets version gs

    unfoldable pub insert_genesis : List ℕ → Exec D Unit
    insert_genesis genesis_bytes = do
      (version, gs) ← lift (
          or_propagate (codes "Failed to parse avm genesis bytes")
            (x.unmarshal_genesis genesis_bytes))
      genesis_assets version gs

    -- The loop of `Bootstrap` over the chains of the platform's genesis
    unfoldable pub bootstrap : List GenesisChain → Exec D Unit
    bootstrap [] = pure tt
    bootstrap (other_chain ∷ chains) = lift (
        err (
          x.propagate (codes "incorrect genesis chain tx type")
            (codes "Platform genesis contains invalid Chains")))
    bootstrap (create_chain false genesis_data ∷ chains) = bootstrap chains
    bootstrap (create_chain true genesis_data ∷ chains) =
        insert_genesis genesis_data >> bootstrap chains

    -- The loop of `ConsumeConsensus` over the transactions of a vertex
    unfoldable pub insert_epoch : Vertex → List ℕ → Exec D Unit
    insert_epoch vert tx = do
      tx_id ← lift (w.node.to_id (w.node.compute_hash256 tx))
      insert_transactions_epoch w.session
          (record {
            id = w.node.id_string tx_id;
            epoch = vert.epoch;
            vertex_id = w.node.id_string vert.id;
            created_at = w.ctx_time;
          })
          w.perform_updates

    unfoldable pub consume_consensus : Connection D → List ℕ → Exec D Unit
    consume_consensus conn body = do
      vert ← lift (x.parse_vertex body)
      in_transaction conn (for_each (insert_epoch vert) vert.txs)
