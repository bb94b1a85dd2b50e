-- ===== src/Cvm/Writer.antt =====
-- services/indexes/cvm/writer.go: a block of the contract chain with its atomic transactions, a trace and a
-- log, on the writer of services/indexes/axc.
pub mod Stored
use axia_network_v2_magellan.Prelude.{
  ℕ, ◌+◌, ◌-◌, ◌%◌, ◌^◌, Bool, true, false, List, [], ◌∷◌, ◌++◌, Option, none, some, if◌then◌else◌,
  ltb, nat_beq, length,
}
use axia_network_v2_magellan.Prelude.Eq.{◌==◌}
use axia_network_v2_magellan.Prelude.Int.{pos}
use axia_network_v2_magellan.Prelude.Text.{Text, codes, text_eq}
use axia_network_v2_magellan.Prelude.Result.{Result, ok, err}
use axia_network_v2_magellan.Models
use axia_network_v2_magellan.Strconv.{digits}
use axia_network_v2_magellan.Params.Query.{Ident, Time}
use axia_network_v2_magellan.Db.Exec.{Exec, for_each, lift, pure, ◌>>=◌, ◌>>◌}
use axia_network_v2_magellan.Db.Contract.{
  insert_cvm_addresses, insert_cvm_logs, insert_cvm_transactions, insert_cvm_transactions_txdata,
  insert_cvm_transactions_txdata_trace,
}
use axia_network_v2_magellan.Db.Transaction.{Connection, in_transaction}
use axia_network_v2_magellan.Axc.Node.{Credential, TransferableInput, TransferableOutput}
use axia_network_v2_magellan.Axc.Outputs.{Writer, add_axc, compute_id, insert_transaction_outs}
use axia_network_v2_magellan.Axc.Inputs.{insert_transaction_ins}
use axia_network_v2_magellan.Axc.Writer.{insert_transaction_base}
use axia_network_v2_magellan.Cvm.Node.{
  AtomicTx, Block, Contract, EvmInput, EvmOutput, ExportTx, ImportTx, Log, RawTx, TraceModel,
  TransactionTrace, UnsignedAtomicTx, other_atomic_tx, unsigned_export_tx, unsigned_import_tx,
}

-- `totalin-totalout` of 64 bits, with no test that it is not negative
unfoldable pub atomic_fee : ℕ → ℕ → ℕ
atomic_fee totalin totalout = (totalin + 2 ^ 64 - totalout) % 2 ^ 64

abbrev pub avm_tx_type : ℕ → Text
avm_tx_type typ =
    if nat_beq typ Models.axchain_import
    then codes "atomic_import_tx"
    else if nat_beq typ Models.axchain_export
    then codes "atomic_export_tx"
    else []

module _ {D : Type 0} (w : Writer D) (network_id : ℕ) where
  unfoldable pub index_transaction : Ident → ℕ → Ident → ℕ → List ℕ → Exec D Unit
  index_transaction id typ blockchain_id txfee unsigned_bytes =
      insert_transaction_base w id (w.node.id_string blockchain_id) (avm_tx_type typ) (some [])
        unsigned_bytes txfee false network_id

  unfoldable pub insert_address : ℕ → ℕ → Ident → Text → Ident → ℕ → ℕ → Exec D Unit
  insert_address typ idx id address asset_id amount nonce =
      insert_cvm_addresses w.session
        (record {
          id = w.node.id_string (w.node.prefix id idx);
          axchain_type = typ;
          idx = idx;
          transaction_id = w.node.id_string id;
          address = address;
          asset_id = w.node.id_string asset_id;
          amount = amount;
          nonce = nonce;
          created_at = w.ctx_time;
        })
        w.perform_updates

  -- The loops of an export: the sum of AXC that leaves the accounts, and that of the outputs.
  unfoldable pub export_ins : Ident → List EvmInput → ℕ → ℕ → Exec D ℕ
  export_ins tx_id [] icnt totalin = pure totalin
  export_ins tx_id (input ∷ ins) icnt totalin = do
    insert_address Models.axchain_in icnt tx_id input.address input.asset_id input.amount
        input.nonce
    total ← lift (add_axc w input.asset_id totalin input.amount)
    export_ins tx_id ins (icnt + 1) total

  unfoldable pub export_outs : Ident → Text → List TransferableOutput → ℕ → ℕ → Exec D ℕ
  export_outs tx_id chain_id [] idx totalout = pure totalout
  export_outs tx_id chain_id (out ∷ outs) idx totalout = do
    total ← insert_transaction_outs w idx totalout out tx_id chain_id false false
    export_outs tx_id chain_id outs ((idx + 1) % 2 ^ 32) total

  unfoldable pub index_export_tx : Ident → ExportTx → List ℕ → Exec D Unit
  index_export_tx tx_id tx block_bytes = do
    totalin ← export_ins tx_id tx.ins 0 0
    totalout ← export_outs tx_id (w.node.id_string tx.destination_chain) tx.exported_outputs 0 0
    index_transaction tx_id Models.axchain_export tx.blockchain_id (atomic_fee totalin totalout)
        block_bytes

  -- The loops of an import: the sum of AXC that comes to the accounts, and that of the inputs.
  unfoldable pub import_outs : Ident → List EvmOutput → ℕ → ℕ → Exec D ℕ
  import_outs tx_id [] icnt totalout = pure totalout
  import_outs tx_id (out ∷ outs) icnt totalout = do
    insert_address Models.axchain_out icnt tx_id out.address out.asset_id out.amount 0
    total ← lift (add_axc w out.asset_id totalout out.amount)
    import_outs tx_id outs (icnt + 1) total

  unfoldable pub import_ins :
      Ident → List Credential → List ℕ → Text → List TransferableInput → ℕ → ℕ → Exec D ℕ
  import_ins tx_id creds unsigned_bytes chain_id [] inidx totalin = pure totalin
  import_ins tx_id creds unsigned_bytes chain_id (input ∷ ins) inidx totalin = do
    total ← insert_transaction_ins w inidx totalin input tx_id creds unsigned_bytes chain_id
    import_ins tx_id creds unsigned_bytes chain_id ins (inidx + 1) total

  unfoldable pub index_import_tx :
      Ident → ImportTx → List Credential → List ℕ → List ℕ → Exec D Unit
  index_import_tx tx_id tx creds block_bytes unsigned_bytes = do
    totalout ← import_outs tx_id tx.outs 0 0
    totalin ←
        import_ins tx_id creds unsigned_bytes (w.node.id_string tx.source_chain) tx.imported_inputs
          0 0
    index_transaction tx_id Models.axchain_import tx.blockchain_id (atomic_fee totalin totalout)
        block_bytes

  module _ (c : Contract) where
    -- The switch on the type of an atomic transaction: the type and the chain after it. A transaction of
    -- another type leaves those of the one before.
    unfoldable pub index_atomic :
        List ℕ → AtomicTx → UnsignedAtomicTx → ℕ × Text → Exec D (ℕ × Text)
    index_atomic block_bytes tx (unsigned_export_tx atx) last =
        index_export_tx tx.id atx block_bytes
        >> pure (Models.axchain_export, w.node.id_string atx.blockchain_id)
    index_atomic block_bytes tx (unsigned_import_tx atx) last = do
      unsigned_bytes ← lift (c.marshal_unsigned tx.unsigned)
      index_import_tx tx.id atx tx.creds block_bytes unsigned_bytes
      pure (Models.axchain_import, w.node.id_string atx.blockchain_id)
    index_atomic block_bytes tx other_atomic_tx last = pure last

    unfoldable pub index_atomics : List ℕ → List AtomicTx → ℕ × Text → Exec D (ℕ × Text)
    index_atomics block_bytes [] last = pure last
    index_atomics block_bytes (tx ∷ txs) last = do
      next ← index_atomic block_bytes tx tx.unsigned last
      index_atomics block_bytes txs next

    -- The loop over the block's transactions
    unfoldable pub insert_txdata : Block → List RawTx → ℕ → Exec D Unit
    insert_txdata block [] ipos = pure tt
    insert_txdata block (rawtx ∷ txs) ipos = do
      txdata ← lift rawtx.json
      insert_cvm_transactions_txdata w.session
          (record {
            hash = rawtx.hash;
            block = block.number;
            idx = ipos;
            rcpt = rawtx.to;
            nonce = rawtx.nonce;
            serialization = txdata;
            created_at = w.ctx_time;
          })
          w.perform_updates
      insert_txdata block txs (ipos + 1)

    -- The header's time, 1 in place of 0
    abbrev pub tx_time : Block → Time
    tx_time block = record { sec = pos (if nat_beq block.time 0 then 1 else block.time); nsec = 0 }

    -- A row for each atomic transaction, all of the last one's type and chain
    unfoldable pub insert_cvm_transaction :
        Text → Block → ℕ × Text → List ℕ → AtomicTx → Exec D Unit
    insert_cvm_transaction id block last blockjson tx =
        insert_cvm_transactions w.session
          (record {
            id = id;
            transaction_id = w.node.id_string tx.id;
            axchain_type = last.0;
            blockchain_id = last.1;
            block = block.number;
            created_at = w.ctx_time;
            serialization = blockjson;
            tx_time = tx_time block;
            nonce = block.nonce;
            hash = block.hash;
            parent_hash = block.parent_hash;
          })
          w.perform_updates

    unfoldable pub index_block_internal : List AtomicTx → List ℕ → Block → Exec D Unit
    index_block_internal atomic_txs block_bytes block = do
      id ← lift (w.node.to_id (w.node.compute_hash256 block.number))
      last ← index_atomics block_bytes atomic_txs (0, [])
      insert_txdata block block.txs 0
      blockjson ← lift block.json
      for_each (insert_cvm_transaction (w.node.id_string id) block last blockjson) atomic_txs

    unfoldable pub signed_from : ℕ → List AtomicTx → Result Text (List AtomicTx)
    signed_from index [] = ok []
    signed_from index (tx ∷ txs) = elim (c.sign tx) [
      | ok tx' ↦ elim (signed_from (index + 1) txs) [ ok txs' ↦ ok (tx' ∷ txs') | err e ↦ err e ]
      | err e ↦
          err
            (codes "failed to initialize atomic tx at index " ++ digits 20 index ++ codes ": " ++ e)
    ]

    unfoldable pub extract_atomic_txs_pre_apricot_phase5 : List ℕ → Result Text (List AtomicTx)
    extract_atomic_txs_pre_apricot_phase5 bytes = elim (c.unmarshal_tx bytes) [
      | ok tx ↦ elim (c.sign tx) [
        | ok tx' ↦ ok (tx' ∷ [])
        | err e ↦ err (codes "failed to initialize singleton atomic tx due to: " ++ e)
      ]
      | err e ↦ err (codes "failed to unmarshal atomic tx (pre-AP5): " ++ e)
    ]

    unfoldable pub extract_atomic_txs_post_apricot_phase5 : List ℕ → Result Text (List AtomicTx)
    extract_atomic_txs_post_apricot_phase5 bytes = elim (c.unmarshal_txs bytes) [
      | ok txs ↦ signed_from 0 txs
      | err e ↦ err (codes "failed to unmarshal atomic tx (post-AP5): " ++ e)
    ]

    -- The atomic transactions of a block, which an empty message does not have
    unfoldable pub atomic_txs_of : ℕ → List ℕ → Block → Result Text (List AtomicTx)
    atomic_txs_of ap5_activation [] block = ok []
    atomic_txs_of ap5_activation (b ∷ bytes) block =
        if ltb block.time ap5_activation
        then extract_atomic_txs_pre_apricot_phase5 block.block_extra_data
        else extract_atomic_txs_post_apricot_phase5 block.block_extra_data

    unfoldable pub index_block : ℕ → List ℕ → Block → Exec D Unit
    index_block ap5_activation block_bytes block = do
      atomic_txs ← lift (atomic_txs_of ap5_activation block_bytes block)
      index_block_internal atomic_txs block_bytes block

    unfoldable pub consume : Connection D → ℕ → List ℕ → Block → Exec D Unit
    consume conn ap5_activation body block =
        in_transaction conn (index_block ap5_activation body block)

    abbrev first_topic : List Text → Text
    first_topic [] = []
    first_topic (topic ∷ topics) = topic

    -- The body of `ConsumeLogs`
    unfoldable pub index_log : List ℕ → Log → Exec D Unit
    index_log body tx_logs = do
      id ←
          lift (
            compute_id w.node (tx_logs.block_hash ∷ tx_logs.tx_hash ∷ digits 20 tx_logs.index ∷ []))
      insert_cvm_logs w.session
          (record {
            id = id;
            block_hash = tx_logs.block_hash;
            tx_hash = tx_logs.tx_hash;
            log_index = tx_logs.index;
            first_topic = first_topic tx_logs.topics;
            block = digits 20 tx_logs.block_number;
            removed = tx_logs.removed;
            created_at = w.ctx_time;
            serialization = body;
          })
          w.perform_updates

    unfoldable pub consume_logs : Connection D → List ℕ → Log → Exec D Unit
    consume_logs conn body tx_logs = in_transaction conn (index_log body tx_logs)

    -- The body of `ConsumeTrace`
    unfoldable pub index_trace : TransactionTrace → Exec D Unit
    index_trace t = do
      model ← lift (c.unmarshal_trace t.trace)
      insert_cvm_transactions_txdata_trace w.session
          (record {
            hash = t.hash;
            idx = t.idx;
            to_addr = model.to_addr;
            from_addr = model.from_addr;
            call_type = model.call_type;
            trace_type = model.trace_type;
            serialization = t.trace;
            created_at = w.ctx_time;
          })
          w.perform_updates

    unfoldable pub consume_trace : Connection D → TransactionTrace → Exec D Unit
    consume_trace conn t = in_transaction conn (index_trace t)
