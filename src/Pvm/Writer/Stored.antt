-- ===== src/Pvm/Writer/Stored.antt =====
-- The row that a platform transaction leaves: services/indexes/pvm/writer.go on the axc writer.
use axia_network_v2_magellan.Prelude.{
  ◌^◌, ◌<◌, Bool, true, false, List, [], ◌∷◌, Option, none, some, ◌≡◌, refl, sym, ap, ◌∙◌,
}
use axia_network_v2_magellan.Prelude.Text.{Text, codes}
use axia_network_v2_magellan.Prelude.Result.{ok}
use axia_network_v2_magellan.Models.{TransactionType, string}
use axia_network_v2_magellan.Models
use axia_network_v2_magellan.Params.Query.{Ident}
use axia_network_v2_magellan.Db.Exec.{Exec, bind-ok, ◌>>◌, bytes, flag, num, text}
use axia_network_v2_magellan.Db.Columns.{Row}
use axia_network_v2_magellan.Db.Table.{IsTable}
use axia_network_v2_magellan.Db.Rewrite.{Stored, id_key}
use axia_network_v2_magellan.Axc.Node.{
  AddInsContainer, AddOutsContainer, BaseTx, TransferableOutput,
}
use axia_network_v2_magellan.Axc.Outputs.{Writer}
use axia_network_v2_magellan.Axc.Writer.{fitting_memo, insert_transaction}
use axia_network_v2_magellan.Axc.Writer.Sums.{Adds}
use axia_network_v2_magellan.Axc.Writer.Fee.{fee_of, paid, spent, insert_transaction-Stored}
use axia_network_v2_magellan.Pvm.Node.{
  Platform, Tx, UnsignedTx, add_delegator_tx, add_subnet_validator_tx, add_validator_tx,
  advance_time_tx, create_chain_tx, create_subnet_tx, export_tx, import_tx, other_tx,
  reward_validator_tx,
}
use axia_network_v2_magellan.Pvm.Writer.{index_transaction, index_unsigned}
use axia_network_v2_magellan.Pvm.Writer.Stakes.{insert_staker, insert_transaction_block}

-- What a transaction moves: its base, the name of its type, the inputs that it imports, and the outputs
-- that it stakes or exports. A change of the time, a reward and an unknown type move nothing.
pub record Moved : Type 0 where
  pub base_tx : BaseTx
  pub tx_type : TransactionType
  pub add_ins : Option AddInsContainer
  pub add_outs : Option AddOutsContainer

module _ {D : Type 0} (w : Writer D) where
  abbrev staked : BaseTx → TransactionType → List TransferableOutput → Moved
  staked base_tx typ stake = record {
    base_tx = base_tx;
    tx_type = typ;
    add_ins = none;
    add_outs = some (record { outs = stake; stake = true; chain_id = w.chain_id });
  }

  abbrev plain : BaseTx → TransactionType → Moved
  plain base_tx typ = record { base_tx = base_tx; tx_type = typ; add_ins = none; add_outs = none }

  abbrev pub moved : UnsignedTx → Option Moved
  moved (add_validator_tx b stake v o) = some (staked b Models.add_validator stake)
  moved (add_subnet_validator_tx b) = some (plain b Models.add_subnet_validator)
  moved (add_delegator_tx b stake v o) = some (staked b Models.add_delegator stake)
  moved (create_subnet_tx b) = some (plain b Models.create_subnet)
  moved (create_chain_tx b) = some (plain b Models.create_chain)
  moved (import_tx b imported source) = some (record (plain b Models.pvm_import) {
    add_ins = some (record { ins = imported; chain_id = w.node.id_string source });
  })
  moved (export_tx b exported destination) = some (record (plain b Models.pvm_export) {
    add_outs =
        some (record { outs = exported; stake = false; chain_id = w.node.id_string destination });
  })
  moved advance_time_tx = none
  moved (reward_validator_tx i t p) = none
  moved (other_tx name) = none

  -- The row of a transaction that moves `m`
  abbrev pub HasRow : (Text → D → Option Row) → Bool → Moved → D → Type 0
  HasRow find genesis m d =
      (row : Row) × (find (w.node.id_string m.base_tx.id) d ≡ some row)
      × Stored
          ((codes "type", text (string m.tx_type))
            ∷ (
              codes "txfee",
              num (
                  fee_of genesis (paid w.axc_asset_id m.base_tx m.add_ins)
                    (spent w.axc_asset_id m.base_tx m.add_outs 0)),
            )
            ∷ (codes "genesis", flag genesis)
            ∷ (codes "memo", bytes (fitting_memo m.base_tx.memo))
            ∷ [])
          row

  -- `InsertTransaction` of what is moved
  abbrev last_step : Tx → Bool → Moved → Exec D Unit
  last_step tx genesis m =
      insert_transaction w tx.bytes tx.unsigned_bytes m.base_tx tx.creds (string m.tx_type)
        m.add_ins m.add_outs 0 genesis

  some-inj : {m n : Moved} → some m ≡ some n → m ≡ n
  some-inj e = cc

  split_at :
      (tx : Tx) (genesis : Bool) {n m : Moved} {whole : Exec D Unit} (before : Exec D Unit)
      → whole ≡ (before >> last_step tx genesis n)
      → some n ≡ some m
      → (b : Exec D Unit) × (whole ≡ (b >> last_step tx genesis m))
  split_at tx genesis before h e =
      (before, h ∙ ap (λ (x : Moved). before >> last_step tx genesis x) (some-inj e))

  module _ (p : Platform) where
    -- A transaction that moves something is indexed by some steps, and then its row.
    splits :
        (blk_id : Ident) (tx : Tx) (genesis : Bool) (u : UnsignedTx) (m : Moved)
        → moved u ≡ some m
        → (before : Exec D Unit) × (index_unsigned w p blk_id tx genesis u
            ≡ (before >> last_step tx genesis m))
    unfolding index_unsigned
    splits blk_id tx genesis (add_validator_tx b stake v o) m e =
        split_at tx genesis (insert_staker w p blk_id b stake v o) refl e
    splits blk_id tx genesis (add_subnet_validator_tx b) m e =
        split_at tx genesis (insert_transaction_block w b.id blk_id) refl e
    splits blk_id tx genesis (add_delegator_tx b stake v o) m e =
        split_at tx genesis (insert_staker w p blk_id b stake v o) refl e
    splits blk_id tx genesis (create_subnet_tx b) m e =
        split_at tx genesis (insert_transaction_block w b.id blk_id) refl e
    splits blk_id tx genesis (create_chain_tx b) m e =
        split_at tx genesis (insert_transaction_block w b.id blk_id) refl e
    splits blk_id tx genesis (import_tx b imported source) m e =
        split_at tx genesis (insert_transaction_block w b.id blk_id) refl e
    splits blk_id tx genesis (export_tx b exported destination) m e =
        split_at tx genesis (insert_transaction_block w b.id blk_id) refl e
    splits blk_id tx genesis advance_time_tx m e = cc
    splits blk_id tx genesis (reward_validator_tx i t p') m e = cc
    splits blk_id tx genesis (other_tx name) m e = cc

    -- On a replay, which updates the rows that are there, and where the transactions table has the
    -- laws of `IsTable`: a platform transaction that moves something and is indexed without an error
    -- has a row with the name of its type, with what its inputs and imports have of AXC less its
    -- outputs, stakes and exports as the fee, 0 at genesis, and with its memo if that fits. The node's
    -- Add64 is the sum or an error, and the outputs stay below 2^64.
    pub index_transaction-HasRow :
        (adds : Adds w.node) (find : Text → D → Option Row)
        (table : IsTable w.session (codes "avm_transactions") id_key find) (blk_id : Ident)
        (tx : Tx) (genesis : Bool) (m : Moved) (d d' : D)
        → moved tx.unsigned_tx ≡ some m
        → w.perform_updates ≡ true
        → spent w.axc_asset_id m.base_tx m.add_outs 0 < 2 ^ 64
        → index_transaction w p blk_id tx genesis d ≡ (ok tt, d')
        → HasRow find genesis m d'
    unfolding index_transaction
    index_transaction-HasRow adds find table blk_id tx genesis m d d' e u k h =
        let (before, same) = splits blk_id tx genesis tx.unsigned_tx m e in
        let (x, d1, first, last) =
          bind-ok before (λ x. last_step tx genesis m) d
            (ap (λ (run : Exec D Unit). run d) (sym same) ∙ h) in
        insert_transaction-Stored w adds find table tx.bytes tx.unsigned_bytes m.base_tx tx.creds
          (string m.tx_type) m.add_ins m.add_outs 0 genesis d1 d' u k last
