-- ===== src/Axc/Writer/Fee.antt =====
-- The fee that services/indexes/axc/writer.go stores with a transaction.
use mathlib.Core.Path.{subst}
use axia_network_v2_magellan.Prelude.{
  ℕ, ◌+◌, ◌-◌, ◌^◌, ◌<◌, Bool, true, false, List, [], ◌∷◌, Option, none, some, ◌≡◌, refl, sym, ap,
  ap₂, ◌∙◌, arith,
}
use axia_network_v2_magellan.Prelude.Text.{Text, codes, text_eq}
use axia_network_v2_magellan.Prelude.Result.{Result, ok}
use axia_network_v2_magellan.Params.Query.{Ident}
use axia_network_v2_magellan.Db.Exec.{text, num, flag, bytes, pure, bind-ok}
use axia_network_v2_magellan.Db.Columns.{Row}
use axia_network_v2_magellan.Db.Table.{IsTable}
use axia_network_v2_magellan.Db.Rewrite.{id_key, Stored, insert_transactions-Stored}
use axia_network_v2_magellan.Axc.Outputs.{Writer}
use axia_network_v2_magellan.Axc.Node.{BaseTx, Credential, AddInsContainer, AddOutsContainer}
use axia_network_v2_magellan.Axc.Writer.{
  insert_add_ins, insert_add_outs, insert_transaction, insert_transaction_base, tx_fee,
  fitting_memo,
}
use axia_network_v2_magellan.Axc.Writer.Sums.{
  Adds, inflow, outflow, Flowed, insert_ins-Flowed, insert_outs-Flowed,
}

abbrev pub more_inflow : Ident → Option AddInsContainer → ℕ
more_inflow axc none = 0
more_inflow axc (some more) = inflow axc more.ins

abbrev pub more_outflow : Ident → Option AddOutsContainer → ℕ
more_outflow axc none = 0
more_outflow axc (some more) = outflow axc more.outs

abbrev pub paid : Ident → BaseTx → Option AddInsContainer → ℕ
paid axc base_tx add_ins = inflow axc base_tx.ins + more_inflow axc add_ins

abbrev pub spent : Ident → BaseTx → Option AddOutsContainer → ℕ → ℕ
spent axc base_tx add_outs addl = outflow axc base_tx.outs + more_outflow axc add_outs + addl

-- What the fee is meant to be: what goes in less what comes out, and nothing at genesis.
abbrev pub fee_of : Bool → ℕ → ℕ → ℕ
fee_of true paid spent = 0
fee_of false paid spent = paid - spent

tx_fee-fee_of :
    (totalin totalout addl : ℕ) (genesis : Bool)
    → totalin < 2 ^ 64
    → totalout + addl < 2 ^ 64
    → tx_fee totalin totalout addl genesis ≡ fee_of genesis totalin (totalout + addl)
unfolding tx_fee
tx_fee-fee_of totalin totalout addl true h k = refl
tx_fee-fee_of totalin totalout addl false h k = ground arith

module _ {D : Type 0} (w : Writer D) (adds : Adds w.node) where
  pub insert_add_ins-Flowed :
      (tx_id : Ident) (creds : List Credential) (unsigned_bytes : List ℕ)
      (add_ins : Option AddInsContainer) (inidx totalin : ℕ) (d : D) {r : ℕ × ℕ} {d' : D}
      → insert_add_ins w tx_id creds unsigned_bytes add_ins inidx totalin d ≡ (ok r, d')
      → Flowed totalin (more_inflow w.axc_asset_id add_ins) r.1
  unfolding insert_add_ins pure
  insert_add_ins-Flowed tx_id creds unsigned_bytes none inidx totalin d h = ground (arith, h)
  insert_add_ins-Flowed tx_id creds unsigned_bytes (some more) inidx totalin d h =
      insert_ins-Flowed w adds tx_id creds unsigned_bytes more.chain_id more.ins inidx totalin d h

  pub insert_add_outs-Flowed :
      (tx_id : Ident) (add_outs : Option AddOutsContainer) (idx totalout : ℕ) (d : D) {r : ℕ × ℕ}
      {d' : D}
      → insert_add_outs w tx_id add_outs idx totalout d ≡ (ok r, d')
      → Flowed totalout (more_outflow w.axc_asset_id add_outs) r.1
  unfolding insert_add_outs pure
  insert_add_outs-Flowed tx_id none idx totalout d h = ground (arith, h)
  insert_add_outs-Flowed tx_id (some more) idx totalout d h =
      insert_outs-Flowed w adds tx_id more.chain_id more.stake more.outs idx totalout d h

  -- Whatever the session does, a transaction that is stored without an error has sums of 64 bits, and
  -- the last step stored its row with the fee `fee_of`: the AXC of all its inputs less that of all its
  -- outputs and the additional fee, 0 if that is negative, and 0 at genesis. The node's Add64 is the
  -- sum or an error, and the outputs with the additional fee stay below 2^64.
  pub insert_transaction-fee_of :
      (tx_bytes unsigned_bytes : List ℕ) (base_tx : BaseTx) (creds : List Credential)
      (tx_type : Text) (add_ins : Option AddInsContainer) (add_outs : Option AddOutsContainer)
      (addl : ℕ) (genesis : Bool) (d d' : D)
      → spent w.axc_asset_id base_tx add_outs addl < 2 ^ 64
      → insert_transaction w tx_bytes unsigned_bytes base_tx creds tx_type add_ins add_outs addl
          genesis d
        ≡ (ok tt, d')
      → (paid w.axc_asset_id base_tx add_ins < 2 ^ 64)
        × (before : D) × (insert_transaction_base w base_tx.id w.chain_id tx_type base_tx.memo
              tx_bytes
              (fee_of genesis
                (paid w.axc_asset_id base_tx add_ins)
                (spent w.axc_asset_id base_tx add_outs addl))
              genesis
              base_tx.network_id
              before
            ≡ (ok tt, d'))
  unfolding insert_transaction
  insert_transaction-fee_of tx_bytes unsigned_bytes base_tx creds tx_type add_ins add_outs addl
        genesis d d' k h =
      let (i, d1, e1, h1) = bind-ok _ _ d h in
      let (j, d2, e2, h2) = bind-ok _ _ d1 h1 in
      let (o, d3, e3, h3) = bind-ok _ _ d2 h2 in
      let (l, d4, e4, h4) = bind-ok _ _ d3 h3 in
      let f1 =
        insert_ins-Flowed w adds base_tx.id creds unsigned_bytes w.chain_id base_tx.ins 0 0 d e1 in
      let f2 = insert_add_ins-Flowed base_tx.id creds unsigned_bytes add_ins i.0 i.1 d1 e2 in
      let f3 = insert_outs-Flowed w adds base_tx.id w.chain_id false base_tx.outs 0 0 d2 e3 in
      let f4 = insert_add_outs-Flowed base_tx.id add_outs o.0 o.1 d3 e4 in
      let p : j.1 ≡ paid w.axc_asset_id base_tx add_ins = omega (arith, f1.0, f2.0) in
      let q : l.1 + addl ≡ spent w.axc_asset_id base_tx add_outs addl = omega (arith, f3.0, f4.0) in
      let b : j.1 < 2 ^ 64 = f2.1 (f1.1 (omega arith)) in
      let c : l.1 + addl < 2 ^ 64 = omega (arith, q, k) in
      let fee : tx_fee j.1 l.1 addl genesis
          ≡ fee_of genesis (paid w.axc_asset_id base_tx add_ins)
              (spent w.axc_asset_id base_tx add_outs addl) =
        tx_fee-fee_of j.1 l.1 addl genesis b c ∙ ap₂ (fee_of genesis) p q in
      (
        omega (arith, p, b),
        d4,
        subst
            (λ (n : ℕ).
              insert_transaction_base w base_tx.id w.chain_id tx_type base_tx.memo tx_bytes n
                genesis base_tx.network_id d4
              ≡ (ok tt, d'))
            fee h4,
      )

  -- The row that the last step leaves
  pub insert_transaction_base-Stored :
      (find : Text → D → Option Row)
      (table : IsTable w.session (codes "avm_transactions") id_key find) (tx_id : Ident)
      (chain_id tx_type : Text) (memo : Option (List ℕ)) (tx_bytes : List ℕ) (txfee : ℕ)
      (genesis : Bool) (network_id : ℕ) (d d' : D)
      → w.perform_updates ≡ true
      → insert_transaction_base w tx_id chain_id tx_type memo tx_bytes txfee genesis network_id d
        ≡ (ok tt, d')
      → (row : Row) × (find (w.node.id_string tx_id) d' ≡ some row)
        × Stored
            ((codes "type", text tx_type)
              ∷ (codes "txfee", num txfee)
              ∷ (codes "genesis", flag genesis)
              ∷ (codes "memo", bytes (fitting_memo memo))
              ∷ [])
            row
  unfolding insert_transaction_base
  insert_transaction_base-Stored find table tx_id chain_id tx_type memo tx_bytes txfee genesis
        network_id d d' u e =
      let (s, row, f, columns, others) = insert_transactions-Stored w.session find table _ d in
      let e' = rw u at e in
      (
        row,
        ap (λ (p : Result Text Unit × D). find (w.node.id_string tx_id) p.1) (sym e') ∙ f,
        (columns.1.0, (columns.1.1.1.1.1.0, (columns.1.1.1.1.1.1.0, (columns.1.1.0, tt)))),
      )

  -- On a replay, which updates the rows that are there, and where the transactions table has the laws
  -- of `IsTable`: a transaction that is stored without an error has a row with its type, with the fee
  -- `fee_of` of the AXC of all its inputs and outputs and the additional fee, with its genesis flag, and
  -- with its memo if that has at most 1024 bytes, and none otherwise. The node's Add64 is the sum or an
  -- error, and the outputs with the additional fee stay below 2^64.
  pub insert_transaction-Stored :
      (find : Text → D → Option Row)
      (table : IsTable w.session (codes "avm_transactions") id_key find)
      (tx_bytes unsigned_bytes : List ℕ) (base_tx : BaseTx) (creds : List Credential)
      (tx_type : Text) (add_ins : Option AddInsContainer) (add_outs : Option AddOutsContainer)
      (addl : ℕ) (genesis : Bool) (d d' : D)
      → w.perform_updates ≡ true
      → spent w.axc_asset_id base_tx add_outs addl < 2 ^ 64
      → insert_transaction w tx_bytes unsigned_bytes base_tx creds tx_type add_ins add_outs addl
          genesis d
        ≡ (ok tt, d')
      → (row : Row) × (find (w.node.id_string base_tx.id) d' ≡ some row)
        × Stored
            ((codes "type", text tx_type)
              ∷ (
                codes "txfee",
                num (
                    fee_of genesis
                      (paid w.axc_asset_id base_tx add_ins)
                      (spent w.axc_asset_id base_tx add_outs addl)),
              )
              ∷ (codes "genesis", flag genesis)
              ∷ (codes "memo", bytes (fitting_memo base_tx.memo))
              ∷ [])
            row
  insert_transaction-Stored find table tx_bytes unsigned_bytes base_tx creds tx_type add_ins
        add_outs addl genesis d d' u k h =
      let (b, before, e) =
        insert_transaction-fee_of tx_bytes unsigned_bytes base_tx creds tx_type add_ins add_outs
          addl genesis d d' k h in
      insert_transaction_base-Stored find table base_tx.id w.chain_id tx_type base_tx.memo tx_bytes
        (fee_of genesis (paid w.axc_asset_id base_tx add_ins)
          (spent w.axc_asset_id base_tx add_outs addl))
        genesis base_tx.network_id before d' u e
