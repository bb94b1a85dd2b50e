-- ===== src/Cvm/Writer/Stored.antt =====
-- The row that an atomic transaction of the contract chain leaves: services/indexes/cvm/writer.go on the
-- axc writer.
use mathlib.Core.Path.{subst}
use axia_network_v2_magellan.Prelude.{
  ℕ, ◌+◌, ◌-◌, ◌^◌, ◌<◌, ◌%◌, true, false, List, [], ◌∷◌, Option, none, some, if◌then◌else◌, ltb,
  ◌≡◌, ap₂, ◌∙◌, arith,
}
use axia_network_v2_magellan.Prelude.Eq.{◌==◌}
use axia_network_v2_magellan.Prelude.Text.{Text, codes, text_eq}
use axia_network_v2_magellan.Prelude.Result.{ok}
use axia_network_v2_magellan.Models
use axia_network_v2_magellan.Params.Query.{Ident}
use axia_network_v2_magellan.Db.Exec.{bind-ok, bytes, flag, num, text}
use axia_network_v2_magellan.Db.Columns.{Row}
use axia_network_v2_magellan.Db.Table.{IsTable}
use axia_network_v2_magellan.Db.Rewrite.{Stored, id_key}
use axia_network_v2_magellan.Axc.Node.{Credential, TransferableInput, TransferableOutput}
use axia_network_v2_magellan.Axc.Outputs.{Writer, insert_transaction_outs}
use axia_network_v2_magellan.Axc.Writer.Sums.{
  Adds, Counted, Flowed, add_axc-ok, inflow, insert_transaction_ins-Counted, lift-eq-ok, outflow,
  process_state_out-Counted, pure-eq-ok, state_amount, then_flow,
}
use axia_network_v2_magellan.Axc.Writer.Fee.{insert_transaction_base-Stored}
use axia_network_v2_magellan.Cvm.Node.{
  AtomicTx, Contract, EvmInput, EvmOutput, UnsignedAtomicTx, other_atomic_tx, unsigned_export_tx,
  unsigned_import_tx,
}
use axia_network_v2_magellan.Cvm.Writer.{
  atomic_fee, avm_tx_type, export_ins, export_outs, import_ins, import_outs, index_atomic,
  index_export_tx, index_import_tx, index_transaction,
}

module _ (axc : Ident) where
  -- The AXC that leaves accounts, and that comes to them
  unfoldable pub account_inflow : List EvmInput → ℕ
  account_inflow [] = 0
  account_inflow (input ∷ ins) =
      (if input.asset_id == axc then input.amount else 0) + account_inflow ins

  unfoldable pub account_outflow : List EvmOutput → ℕ
  account_outflow [] = 0
  account_outflow (out ∷ outs) =
      (if out.asset_id == axc then out.amount else 0) + account_outflow outs

-- What an atomic transaction moves: the name of its type, and the AXC that goes in and that comes out.
pub record Moved : Type 0 where
  pub name : Text
  pub paid : ℕ
  pub spent : ℕ

abbrev pub moved : Ident → UnsignedAtomicTx → Option Moved
moved axc (unsigned_export_tx tx) = some (record {
  name = codes "atomic_export_tx";
  paid = account_inflow axc tx.ins;
  spent = outflow axc tx.exported_outputs;
})
moved axc (unsigned_import_tx tx) = some (record {
  name = codes "atomic_import_tx";
  paid = inflow axc tx.imported_inputs;
  spent = account_outflow axc tx.outs;
})
moved axc other_atomic_tx = none

-- The difference, if it is not negative, and else the difference and 2^64
abbrev pub wrapped : ℕ → ℕ → ℕ
wrapped paid spent = if ltb paid spent then paid + 2 ^ 64 - spent else paid - spent

atomic_fee-wrapped :
    (paid spent : ℕ) → paid < 2 ^ 64 → spent < 2 ^ 64 → atomic_fee paid spent ≡ wrapped paid spent
unfolding atomic_fee
atomic_fee-wrapped paid spent h k = ground arith

module _ {D : Type 0} (w : Writer D) (adds : Adds w.node) (network_id : ℕ) where
  export_ins-Flowed :
      (tx_id : Ident) (ins : List EvmInput) (icnt totalin : ℕ) (d : D) {r : ℕ} {d' : D}
      → export_ins w network_id tx_id ins icnt totalin d ≡ (ok r, d')
      → Flowed totalin (account_inflow w.axc_asset_id ins) r
  unfolding export_ins account_inflow
  export_ins-Flowed tx_id [] icnt totalin d h =
      subst (Flowed totalin 0) (pure-eq-ok totalin d h).0 (omega arith, λ q. q)
  export_ins-Flowed tx_id (input ∷ ins) icnt totalin d {r} h =
      let (u, d1, e1, h1) = bind-ok _ _ d h in
      let (total, d2, e2, h2) = bind-ok _ _ d1 h1 in
      then_flow w adds input.asset_id totalin input.amount total (account_inflow w.axc_asset_id ins)
        r (add_axc-ok w adds input.asset_id totalin input.amount total (lift-eq-ok _ d1 e2).0)
        (export_ins-Flowed tx_id ins (icnt + 1) total d2 h2)

  import_outs-Flowed :
      (tx_id : Ident) (outs : List EvmOutput) (icnt totalout : ℕ) (d : D) {r : ℕ} {d' : D}
      → import_outs w network_id tx_id outs icnt totalout d ≡ (ok r, d')
      → Flowed totalout (account_outflow w.axc_asset_id outs) r
  unfolding import_outs account_outflow
  import_outs-Flowed tx_id [] icnt totalout d h =
      subst (Flowed totalout 0) (pure-eq-ok totalout d h).0 (omega arith, λ q. q)
  import_outs-Flowed tx_id (out ∷ outs) icnt totalout d {r} h =
      let (u, d1, e1, h1) = bind-ok _ _ d h in
      let (total, d2, e2, h2) = bind-ok _ _ d1 h1 in
      then_flow w adds out.asset_id totalout out.amount total (account_outflow w.axc_asset_id outs)
        r (add_axc-ok w adds out.asset_id totalout out.amount total (lift-eq-ok _ d1 e2).0)
        (import_outs-Flowed tx_id outs (icnt + 1) total d2 h2)

  export_outs-Flowed :
      (tx_id : Ident) (chain_id : Text) (outs : List TransferableOutput) (idx totalout : ℕ) (d : D)
      {r : ℕ} {d' : D}
      → export_outs w network_id tx_id chain_id outs idx totalout d ≡ (ok r, d')
      → Flowed totalout (outflow w.axc_asset_id outs) r
  unfolding export_outs insert_transaction_outs outflow
  export_outs-Flowed tx_id chain_id [] idx totalout d h =
      subst (Flowed totalout 0) (pure-eq-ok totalout d h).0 (omega arith, λ q. q)
  export_outs-Flowed tx_id chain_id (out ∷ outs) idx totalout d {r} h =
      let (total, d1, e1, h1) = bind-ok _ _ d h in
      let (p, d2, e2, h2) = bind-ok _ _ d e1 in
      then_flow w adds out.asset_id totalout (state_amount out.out) total
        (outflow w.axc_asset_id outs) r
        (subst (Counted w adds out.asset_id totalout (state_amount out.out))
          (pure-eq-ok p.1 d2 h2).0
          (process_state_out-Counted w adds out.out tx_id idx out.asset_id 0 totalout chain_id false
            false d e2))
        (export_outs-Flowed tx_id chain_id outs ((idx + 1) % 2 ^ 32) total d1 h1)

  import_ins-Flowed :
      (tx_id : Ident) (creds : List Credential) (unsigned_bytes : List ℕ) (chain_id : Text)
      (ins : List TransferableInput) (inidx totalin : ℕ) (d : D) {r : ℕ} {d' : D}
      → import_ins w network_id tx_id creds unsigned_bytes chain_id ins inidx totalin d ≡ (ok r, d')
      → Flowed totalin (inflow w.axc_asset_id ins) r
  unfolding import_ins inflow
  import_ins-Flowed tx_id creds unsigned_bytes chain_id [] inidx totalin d h =
      subst (Flowed totalin 0) (pure-eq-ok totalin d h).0 (omega arith, λ q. q)
  import_ins-Flowed tx_id creds unsigned_bytes chain_id (input ∷ ins) inidx totalin d {r} h =
      let (total, d1, e1, h1) = bind-ok _ _ d h in
      then_flow w adds input.asset_id totalin input.amount total (inflow w.axc_asset_id ins) r
        (insert_transaction_ins-Counted w adds inidx totalin input tx_id creds unsigned_bytes
          chain_id d e1)
        (import_ins-Flowed tx_id creds unsigned_bytes chain_id ins (inidx + 1) total d1 h1)

  module _ (find : Text → D → Option Row)
      (table : IsTable w.session (codes "avm_transactions") id_key find) where
    -- The row of an atomic transaction that moves `m`
    abbrev pub HasRow : Ident → Moved → D → Type 0
    HasRow tx_id m d =
        (row : Row) × (find (w.node.id_string tx_id) d ≡ some row)
        × Stored
            ((codes "type", text m.name)
              ∷ (codes "txfee", num (wrapped m.paid m.spent))
              ∷ (codes "genesis", flag false)
              ∷ (codes "memo", bytes (some []))
              ∷ [])
            row

    row_of :
        (tx_id : Ident) (n m : Moved) (d : D)
        → some n ≡ some m
        → HasRow tx_id n d
        → HasRow tx_id m d
    row_of tx_id n m d e h = let q : n ≡ m = cc in subst (λ (x : Moved). HasRow tx_id x d) q h

    stored :
        (tx_id : Ident) (typ : ℕ) (blockchain_id : Ident) (block_bytes : List ℕ)
        (totalin totalout paid spent : ℕ) (d d' : D)
        → w.perform_updates ≡ true
        → Flowed 0 paid totalin
        → Flowed 0 spent totalout
        → index_transaction w network_id tx_id typ blockchain_id
            (atomic_fee totalin totalout)
            block_bytes
            d
          ≡ (ok tt, d')
        → HasRow tx_id (record { name = avm_tx_type typ; paid = paid; spent = spent }) d'
    unfolding index_transaction
    stored tx_id typ blockchain_id block_bytes totalin totalout paid spent d d' u f g h =
        let p : totalin ≡ paid = omega (arith, f.0) in
        let q : totalout ≡ spent = omega (arith, g.0) in
        let fee : atomic_fee totalin totalout ≡ wrapped paid spent =
          atomic_fee-wrapped totalin totalout (f.1 (omega arith)) (g.1 (omega arith))
          ∙ ap₂ wrapped p q in
        insert_transaction_base-Stored w adds find table tx_id (w.node.id_string blockchain_id)
          (avm_tx_type typ) (some []) block_bytes (wrapped paid spent) false network_id d d' u
          (subst
            (λ (n : ℕ).
              index_transaction w network_id tx_id typ blockchain_id n block_bytes d ≡ (ok tt, d'))
            fee h)

    -- On a replay, which updates the rows that are there, and where the transactions table has the laws
    -- of `IsTable`: an import or export of the contract chain that is indexed without an error has a row
    -- with the name of its type, and with a fee: the AXC that goes in less the AXC that comes out, or that
    -- difference and 2^64 if it is negative. The node's Add64 is the sum or an error.
    pub index_atomic-HasRow :
        (c : Contract) (block_bytes : List ℕ) (tx : AtomicTx) (u : UnsignedAtomicTx) (m : Moved)
        (last next : ℕ × Text) (d d' : D)
        → moved w.axc_asset_id u ≡ some m
        → w.perform_updates ≡ true
        → index_atomic w network_id c block_bytes tx u last d ≡ (ok next, d')
        → HasRow tx.id m d'
    unfolding index_atomic index_export_tx index_import_tx
    index_atomic-HasRow c block_bytes tx (unsigned_export_tx atx) m last next d d' e u h =
        let (done, d1, e1, h1) = bind-ok _ _ d h in
        let (totalin, d2, e2, h2) = bind-ok _ _ d e1 in
        let (totalout, d3, e3, h3) = bind-ok _ _ d2 h2 in
        row_of tx.id _ m d' e (
          subst (HasRow tx.id _) (pure-eq-ok _ d1 h1).1 (
            stored tx.id Models.axchain_export atx.blockchain_id block_bytes totalin totalout
              (account_inflow w.axc_asset_id atx.ins) (outflow w.axc_asset_id atx.exported_outputs)
              d3 d1 u (export_ins-Flowed tx.id atx.ins 0 0 d e2)
              (export_outs-Flowed tx.id (w.node.id_string atx.destination_chain)
                atx.exported_outputs 0 0 d2 e3)
              h3))
    index_atomic-HasRow c block_bytes tx (unsigned_import_tx atx) m last next d d' e u h =
        let (unsigned_bytes, d0, e0, h0) = bind-ok _ _ d h in
        let (done, d1, e1, h1) = bind-ok _ _ d0 h0 in
        let (totalout, d2, e2, h2) = bind-ok _ _ d0 e1 in
        let (totalin, d3, e3, h3) = bind-ok _ _ d2 h2 in
        row_of tx.id _ m d' e (
          subst (HasRow tx.id _) (pure-eq-ok _ d1 h1).1 (
            stored tx.id Models.axchain_import atx.blockchain_id block_bytes totalin totalout
              (inflow w.axc_asset_id atx.imported_inputs) (account_outflow w.axc_asset_id atx.outs)
              d3 d1 u
              (import_ins-Flowed tx.id tx.creds unsigned_bytes (w.node.id_string atx.source_chain)
                atx.imported_inputs 0 0 d2 e3)
              (import_outs-Flowed tx.id atx.outs 0 0 d0 e2) h3))
    index_atomic-HasRow c block_bytes tx other_atomic_tx m last next d d' e u h = cc
