-- ===== src/Avm/Writer/Stored.antt =====
-- The row that a transaction of the exchange chain leaves: services/indexes/avm/writer.go on the axc writer.
use mathlib.Core.Path.{subst}
use axia_network_v2_magellan.Prelude.{
  ℕ, ◌+◌, ◌^◌, ◌<◌, ◌%◌, true, false, List, [], ◌∷◌, Option, none, some, if◌then◌else◌, ◌≡◌, refl,
  arith,
}
use axia_network_v2_magellan.Prelude.Eq.{◌==◌}
use axia_network_v2_magellan.Prelude.Text.{Text, codes, text_eq}
use axia_network_v2_magellan.Prelude.Result.{ok}
use axia_network_v2_magellan.Models.{TransactionType, string}
use axia_network_v2_magellan.Models
use axia_network_v2_magellan.Params.Query.{Ident}
use axia_network_v2_magellan.Db.Exec.{bind-ok, bytes, flag, lift, num, text}
use axia_network_v2_magellan.Db.Columns.{Row}
use axia_network_v2_magellan.Db.Table.{IsTable}
use axia_network_v2_magellan.Db.Rewrite.{Stored, id_key}
use axia_network_v2_magellan.Axc.Node.{AddInsContainer, AddOutsContainer, BaseTx, State}
use axia_network_v2_magellan.Axc.Outputs.{Writer}
use axia_network_v2_magellan.Axc.Writer.{fitting_memo, insert_transaction}
use axia_network_v2_magellan.Axc.Writer.Sums.{
  Adds, Flowed, process_state_out-Counted, pure-eq-ok, state_amount, then_flow,
}
use axia_network_v2_magellan.Axc.Writer.Fee.{fee_of, paid, spent, insert_transaction-Stored}
use axia_network_v2_magellan.Avm.Node.{
  Operation, Tx, UnsignedTx, create_asset_tx, export_tx, import_tx, operation_tx, other_tx,
  plain_tx,
}
use axia_network_v2_magellan.Avm.Writer.{
  asset_states, insert_create_asset_tx, insert_operation_tx, insert_tx_internal, insert_unsigned,
  op_inputs, operation_outs, state_outs,
}

-- What a transaction moves: its base, the name of its type, the inputs that it imports or operates on,
-- the outputs that it exports, and the AXC of the outputs that its operations or its states make.
pub record Moved : Type 0 where
  pub base_tx : BaseTx
  pub tx_type : TransactionType
  pub add_ins : Option AddInsContainer
  pub add_outs : Option AddOutsContainer
  pub made : ℕ

module _ {D : Type 0} (w : Writer D) where
  unfoldable pub state_flow : Ident → List State → ℕ
  state_flow asset [] = 0
  state_flow asset (out ∷ outs) =
      (if asset == w.axc_asset_id then state_amount out else 0) + state_flow asset outs

  unfoldable pub operations_flow : List Operation → ℕ
  operations_flow [] = 0
  operations_flow (op ∷ ops) = state_flow op.asset_id op.outs + operations_flow ops

  unfoldable pub states_flow : Ident → List (List State) → ℕ
  states_flow asset [] = 0
  states_flow asset (state ∷ states) = state_flow asset state + states_flow asset states

  abbrev pub moved : UnsignedTx → Option Moved
  moved (create_asset_tx asset) = some (record {
    base_tx = asset.base_tx;
    tx_type = Models.create_asset;
    add_ins = none;
    add_outs = none;
    made = states_flow asset.base_tx.id asset.states;
  })
  moved (operation_tx b ops) = some (record {
    base_tx = b;
    tx_type = Models.operation;
    add_ins = some (record { ins = op_inputs ops; chain_id = w.chain_id });
    add_outs = none;
    made = operations_flow ops;
  })
  moved (import_tx b imported source) = some (record {
    base_tx = b;
    tx_type = Models.avm_import;
    add_ins = some (record { ins = imported; chain_id = w.node.id_string source });
    add_outs = none;
    made = 0;
  })
  moved (export_tx b exported destination) = some (record {
    base_tx = b;
    tx_type = Models.avm_export;
    add_ins = none;
    add_outs =
        some (record { outs = exported; stake = false; chain_id = w.node.id_string destination });
    made = 0;
  })
  moved (plain_tx b) =
      some
        (record { base_tx = b; tx_type = Models.base; add_ins = none; add_outs = none; made = 0 })
  moved (other_tx name) = none

  -- The row of a transaction that moves `m`
  abbrev pub HasRow : (Text → D → Option Row) → Moved → D → Type 0
  HasRow find m d =
      (row : Row) × (find (w.node.id_string m.base_tx.id) d ≡ some row)
      × Stored
          ((codes "type", text (string m.tx_type))
            ∷ (
              codes "txfee",
              num (
                  fee_of false (paid w.axc_asset_id m.base_tx m.add_ins)
                    (spent w.axc_asset_id m.base_tx m.add_outs m.made)),
            )
            ∷ (codes "genesis", flag false)
            ∷ (codes "memo", bytes (fitting_memo m.base_tx.memo))
            ∷ [])
          row

  module _ (adds : Adds w.node) where
    state_outs-Flowed :
        (tx_id asset : Ident) (outs : List State) (count : ℕ) (sums : ℕ × ℕ) (d : D)
        {r : ℕ × (ℕ × ℕ)} {d' : D}
        → state_outs w tx_id asset outs count sums d ≡ (ok r, d')
        → Flowed sums.1 (state_flow asset outs) r.1.1
    unfolding state_outs state_flow
    state_outs-Flowed tx_id asset [] count sums d h =
        subst (λ (p : ℕ × (ℕ × ℕ)). Flowed sums.1 0 p.1.1) (pure-eq-ok (count, sums) d h).0
          (omega arith, λ q. q)
    state_outs-Flowed tx_id asset (out ∷ outs) count sums d {r} h =
        let (mid, d1, e1, h1) = bind-ok _ _ d h in
        then_flow w adds asset sums.1 (state_amount out) mid.1 (state_flow asset outs) r.1.1
          (process_state_out-Counted w adds out tx_id count asset sums.0 sums.1 w.chain_id false
            false d e1)
          (state_outs-Flowed tx_id asset outs ((count + 1) % 2 ^ 32) mid d1 h1)

    flow_then : (total a t b r : ℕ) → Flowed total a t → Flowed t b r → Flowed total (a + b) r
    flow_then total a t b r f g = (omega (arith, f.0, g.0), λ h. g.1 (f.1 h))

    operation_outs-Flowed :
        (tx_id : Ident) (ops : List Operation) (count : ℕ) (sums : ℕ × ℕ) (d : D) {r : ℕ × (ℕ × ℕ)}
        {d' : D}
        → operation_outs w tx_id ops count sums d ≡ (ok r, d')
        → Flowed sums.1 (operations_flow ops) r.1.1
    unfolding operation_outs operations_flow
    operation_outs-Flowed tx_id [] count sums d h =
        subst (λ (p : ℕ × (ℕ × ℕ)). Flowed sums.1 0 p.1.1) (pure-eq-ok (count, sums) d h).0
          (omega arith, λ q. q)
    operation_outs-Flowed tx_id (op ∷ ops) count sums d {r} h =
        let (mid, d1, e1, h1) = bind-ok _ _ d h in
        flow_then sums.1 (state_flow op.asset_id op.outs) mid.1.1 (operations_flow ops) r.1.1
          (state_outs-Flowed tx_id op.asset_id op.outs count sums d e1)
          (operation_outs-Flowed tx_id ops mid.0 mid.1 d1 h1)

    asset_states-Flowed :
        (tx_id : Ident) (states : List (List State)) (count : ℕ) (sums : ℕ × ℕ) (d : D)
        {r : ℕ × (ℕ × ℕ)} {d' : D}
        → asset_states w tx_id states count sums d ≡ (ok r, d')
        → Flowed sums.1 (states_flow tx_id states) r.1.1
    unfolding asset_states states_flow
    asset_states-Flowed tx_id [] count sums d h =
        subst (λ (p : ℕ × (ℕ × ℕ)). Flowed sums.1 0 p.1.1) (pure-eq-ok (count, sums) d h).0
          (omega arith, λ q. q)
    asset_states-Flowed tx_id (state ∷ states) count sums d {r} h =
        let (mid, d1, e1, h1) = bind-ok _ _ d h in
        flow_then sums.1 (state_flow tx_id state) mid.1.1 (states_flow tx_id states) r.1.1
          (state_outs-Flowed tx_id tx_id state count sums d e1)
          (asset_states-Flowed tx_id states mid.0 mid.1 d1 h1)

    -- The last step of a transaction that moves `m`
    abbrev Ends : List ℕ → Tx → Moved → D → D → Type 0
    Ends tx_bytes tx m before d' =
        insert_transaction w tx_bytes tx.unsigned_bytes m.base_tx tx.creds (string m.tx_type)
          m.add_ins m.add_outs m.made false before
        ≡ (ok tt, d')

    some-inj : {n m : Moved} → some n ≡ some m → n ≡ m
    some-inj e = cc

    Ends-at :
        (tx_bytes : List ℕ) (tx : Tx) {n m : Moved} (before d' : D) (sum : ℕ)
        → some n ≡ some m
        → sum ≡ n.made
        → Ends tx_bytes tx (record n { made = sum }) before d'
        → Ends tx_bytes tx m before d'
    Ends-at tx_bytes tx {n} before d' sum e q h =
        subst (λ (x : Moved). Ends tx_bytes tx x before d') (some-inj e)
          (subst (λ (k : ℕ). Ends tx_bytes tx (record n { made = k }) before d') q h)

    ends :
        (tx_bytes : List ℕ) (tx : Tx) (u : UnsignedTx) (m : Moved) (d d' : D)
        → moved u ≡ some m
        → insert_unsigned w tx_bytes tx u d ≡ (ok tt, d')
        → (before : D) × Ends tx_bytes tx m before d'
    unfolding insert_unsigned insert_create_asset_tx insert_operation_tx lift
    ends tx_bytes tx (create_asset_tx asset) m d d' e h =
        let (count, d1, e1, h1) = bind-ok _ _ d h in
        let (sums, d2, e2, h2) = bind-ok _ _ d1 h1 in
        let (u, d3, e3, h3) = bind-ok _ _ d2 h2 in
        let f = asset_states-Flowed asset.base_tx.id asset.states count (0, 0) d1 e2 in
        (d3, Ends-at tx_bytes tx d3 d' sums.1.1 e (omega (arith, f.0)) h3)
    ends tx_bytes tx (operation_tx b ops) m d d' e h =
        let (count, d1, e1, h1) = bind-ok _ _ d h in
        let (sums, d2, e2, h2) = bind-ok _ _ d1 h1 in
        let f = operation_outs-Flowed b.id ops count (0, 0) d1 e2 in
        (d2, Ends-at tx_bytes tx d2 d' sums.1.1 e (omega (arith, f.0)) h2)
    ends tx_bytes tx (import_tx b imported source) m d d' e h =
        (d, Ends-at tx_bytes tx d d' 0 e refl h)
    ends tx_bytes tx (export_tx b exported destination) m d d' e h =
        (d, Ends-at tx_bytes tx d d' 0 e refl h)
    ends tx_bytes tx (plain_tx b) m d d' e h = (d, Ends-at tx_bytes tx d d' 0 e refl h)
    ends tx_bytes tx (other_tx name) m d d' e h = cc

    -- On a replay, which updates the rows that are there, and where the transactions table has the laws
    -- of `IsTable`: a transaction of the exchange chain that is indexed without an error has a row with
    -- the name of its type, with its memo if that fits, and with a fee: what its inputs and imports have
    -- of AXC, less what its outputs, its exports and the outputs of its operations or states have, 0 if
    -- that is negative. The node's Add64 is the sum or an error, and the outputs stay below 2^64.
    pub insert_tx_internal-HasRow :
        (find : Text → D → Option Row)
        (table : IsTable w.session (codes "avm_transactions") id_key find) (tx : Tx)
        (tx_bytes : List ℕ) (m : Moved) (d d' : D)
        → moved tx.unsigned_tx ≡ some m
        → w.perform_updates ≡ true
        → spent w.axc_asset_id m.base_tx m.add_outs m.made < 2 ^ 64
        → insert_tx_internal w tx tx_bytes d ≡ (ok tt, d')
        → HasRow find m d'
    unfolding insert_tx_internal
    insert_tx_internal-HasRow find table tx tx_bytes m d d' e u k h =
        let (before, last) = ends tx_bytes tx tx.unsigned_tx m d d' e h in
        insert_transaction-Stored w adds find table tx_bytes tx.unsigned_bytes m.base_tx tx.creds
          (string m.tx_type) m.add_ins m.add_outs m.made false before d' u k last
