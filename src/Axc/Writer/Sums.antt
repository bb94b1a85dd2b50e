-- ===== src/Axc/Writer/Sums.antt =====
-- The sums of AXC that services/indexes/axc/writer.go keeps while it stores a transaction.
use axia_network_v2_magellan.Prelude.{
  ℕ, ◌+◌, ◌%◌, ◌^◌, ◌≤◌, ◌<◌, Bool, false, List, [], ◌∷◌, none, some, if◌then◌else◌, ltb, ◌≡◌, sym,
  ◌∙◌, arith, Bool-cases, inl, inr, ltb→lt, ltb-false,
}
use mathlib.Core.Path.{subst}
use axia_network_v2_magellan.Prelude.Eq.{◌==◌}
use axia_network_v2_magellan.Prelude.Text.{Text, text_eq}
use axia_network_v2_magellan.Prelude.Result.{Result, ok, err}
use axia_network_v2_magellan.Params.Query.{Ident}
use axia_network_v2_magellan.Db.Exec.{pure, lift, bind-ok}
use axia_network_v2_magellan.Axc.Node.{
  Node, State, stakeable_lock_out, nft_transfer_output, nft_mint_output, secp_mint_output,
  secp_transfer_output, other_output, TransferableInput, TransferableOutput, Credential,
}
use axia_network_v2_magellan.Axc.Outputs.{
  Writer, add_axc, process_state_out, insert_transaction_outs,
}
use axia_network_v2_magellan.Axc.Inputs.{insert_transaction_ins}
use axia_network_v2_magellan.Axc.Writer.{insert_ins, insert_outs}

-- The documented behaviour of `math.Add64`: the sum, or an error if it has no 64 bits.
abbrev pub Adds : Node → Type 0
Adds node =
    (a b : ℕ)
    → (a + b < 2 ^ 64 → node.add64 a b ≡ ok (a + b))
      × (2 ^ 64 ≤ a + b → (e : Text) × (node.add64 a b ≡ err e))

-- The amount of an output that is a transfer, under a lock or not.
abbrev pub state_amount : State → ℕ
state_amount (stakeable_lock_out locktime none) = 0
state_amount (stakeable_lock_out locktime (some out)) = out.amt
state_amount (nft_transfer_output group_id payload oo) = 0
state_amount (nft_mint_output group_id oo) = 0
state_amount (secp_mint_output oo) = 0
state_amount (secp_transfer_output out) = out.amt
state_amount (other_output name) = 0

-- The AXC that inputs spend, and that outputs receive.
unfoldable pub inflow : Ident → List TransferableInput → ℕ
inflow axc [] = 0
inflow axc (input ∷ ins) = (if input.asset_id == axc then input.amount else 0) + inflow axc ins

unfoldable pub outflow : Ident → List TransferableOutput → ℕ
outflow axc [] = 0
outflow axc (out ∷ outs) =
    (if out.asset_id == axc then state_amount out.out else 0) + outflow axc outs

pub pure-eq-ok :
    {D A : Type 0} (a : A) (d : D) {b : A} {d' : D} → pure a d ≡ (ok b, d') → (a ≡ b) × (d ≡ d')
unfolding pure
pure-eq-ok a d h = (cc, cc)

pub lift-eq-ok :
    {D A : Type 0} (r : Result Text A) (d : D) {b : A} {d' : D}
    → lift r d ≡ (ok b, d')
    → (r ≡ ok b) × (d ≡ d')
unfolding lift
lift-eq-ok r d h = (cc, cc)

-- What a sum is after a list with the sum `flow` of AXC.
abbrev pub Flowed : ℕ → ℕ → ℕ → Type 0
Flowed total flow r = (r ≡ total + flow) × (total < 2 ^ 64 → r < 2 ^ 64)

module _ {D : Type 0} (w : Writer D) (adds : Adds w.node) where
  add64-ok : (a b r : ℕ) → w.node.add64 a b ≡ ok r → (r ≡ a + b) × (r < 2 ^ 64)
  add64-ok a b r h = elim (Bool-cases (ltb (a + b) (2 ^ 64))) [
    | inl e ↦
        let q : ok (a + b) ≡ ok r = sym ((adds a b).0 (ltb→lt (a + b) (2 ^ 64) e)) ∙ h in
        let q' : a + b ≡ r = cc in
        (sym q', subst (λ (n : ℕ). n < 2 ^ 64) q' (ltb→lt (a + b) (2 ^ 64) e))
    | inr e ↦ let (x, q) = (adds a b).1 (ltb-false (a + b) (2 ^ 64) e) in cc
  ]

  -- What a sum of 64 bits is after `amt` of the asset is added to it.
  abbrev pub Counted : Ident → ℕ → ℕ → ℕ → Type 0
  Counted asset total amt r =
      (r ≡ total + (if asset == w.axc_asset_id then amt else 0)) × (total < 2 ^ 64 → r < 2 ^ 64)

  pub add_axc-ok :
      (asset : Ident) (total amt r : ℕ)
      → add_axc w asset total amt ≡ ok r
      → Counted asset total amt r
  unfolding add_axc
  add_axc-ok asset total amt r h = elim (Bool-cases (asset == w.axc_asset_id)) [
    | inl e ↦ let p = add64-ok total amt r (rw e at h) in rw e (p.0, λ q. p.1)
    | inr e ↦ ground (arith, e, h)
  ]

  pub insert_transaction_ins-Counted :
      (idx totalin : ℕ) (input : TransferableInput) (tx_id : Ident) (creds : List Credential)
      (unsigned_bytes : List ℕ) (chain_id : Text) (d : D) {t : ℕ} {d' : D}
      → insert_transaction_ins w idx totalin input tx_id creds unsigned_bytes chain_id d
        ≡ (ok t, d')
      → Counted input.asset_id totalin input.amount t
  unfolding insert_transaction_ins
  insert_transaction_ins-Counted idx totalin input tx_id creds unsigned_bytes chain_id d h =
      let (total, d1, e1, h1) = bind-ok _ _ d h in
      let (u2, d2, e2, h2) = bind-ok _ _ d1 h1 in
      let (u3, d3, e3, h3) = bind-ok _ _ d2 h2 in
      let (u4, d4, e4, h4) = bind-ok _ _ d3 h3 in
      subst (Counted input.asset_id totalin input.amount) (pure-eq-ok total d4 h4).0
        (add_axc-ok input.asset_id totalin input.amount total (lift-eq-ok _ d e1).0)

  uncounted : (asset : Ident) (total : ℕ) → Counted asset total 0 total
  uncounted asset total = ground arith

  pub process_state_out-Counted :
      (st : State) (tx_id : Ident) (count : ℕ) (asset : Ident) (amount totalout : ℕ)
      (chain_id : Text) (stake genesisutxo : Bool) (d : D) {r : ℕ × ℕ} {d' : D}
      → process_state_out w st tx_id count asset amount totalout chain_id stake genesisutxo d
        ≡ (ok r, d')
      → Counted asset totalout (state_amount st) r.1
  unfolding process_state_out
  process_state_out-Counted (stakeable_lock_out locktime none) tx_id count asset amount totalout
        chain_id stake genesisutxo d h =
      let p = (lift-eq-ok _ d h).0 in cc
  process_state_out-Counted (stakeable_lock_out locktime (some out)) tx_id count asset amount
        totalout chain_id stake genesisutxo d h =
      let (total, d1, e1, h1) = bind-ok _ _ d h in
      let (u2, d2, e2, h2) = bind-ok _ _ d1 h1 in
      subst (λ (p : ℕ × ℕ). Counted asset totalout out.amt p.1) (pure-eq-ok (amount, total) d2 h2).0
        (add_axc-ok asset totalout out.amt total (lift-eq-ok _ d e1).0)
  process_state_out-Counted (nft_transfer_output group_id payload oo) tx_id count asset amount
        totalout chain_id stake genesisutxo d h =
      let (u1, d1, e1, h1) = bind-ok _ _ d h in
      subst (λ (p : ℕ × ℕ). Counted asset totalout 0 p.1) (pure-eq-ok (amount, totalout) d1 h1).0
        (uncounted asset totalout)
  process_state_out-Counted (nft_mint_output group_id oo) tx_id count asset amount totalout chain_id
        stake genesisutxo d h =
      let (u1, d1, e1, h1) = bind-ok _ _ d h in
      subst (λ (p : ℕ × ℕ). Counted asset totalout 0 p.1) (pure-eq-ok (amount, totalout) d1 h1).0
        (uncounted asset totalout)
  process_state_out-Counted (secp_mint_output oo) tx_id count asset amount totalout chain_id stake
        genesisutxo d h =
      let (u1, d1, e1, h1) = bind-ok _ _ d h in
      subst (λ (p : ℕ × ℕ). Counted asset totalout 0 p.1) (pure-eq-ok (amount, totalout) d1 h1).0
        (uncounted asset totalout)
  process_state_out-Counted (secp_transfer_output out) tx_id count asset amount totalout chain_id
        stake genesisutxo d h =
      let (total, d1, e1, h1) = bind-ok _ _ d h in
      let (u2, d2, e2, h2) = bind-ok _ _ d1 h1 in
      let (sum, d3, e3, h3) = bind-ok _ _ d2 h2 in
      subst (λ (p : ℕ × ℕ). Counted asset totalout out.amt p.1) (pure-eq-ok (sum, total) d3 h3).0
        (add_axc-ok asset totalout out.amt total (lift-eq-ok _ d e1).0)
  process_state_out-Counted (other_output name) tx_id count asset amount totalout chain_id stake
        genesisutxo d h =
      let p = (lift-eq-ok _ d h).0 in cc

  pub then_flow :
      (asset : Ident) (total amt t flow r : ℕ)
      → Counted asset total amt t
      → Flowed t flow r
      → Flowed total ((if asset == w.axc_asset_id then amt else 0) + flow) r
  then_flow asset total amt t flow r a b = (omega (arith, a.0, b.0), λ h. b.1 (a.1 h))

  pub insert_ins-Flowed :
      (tx_id : Ident) (creds : List Credential) (unsigned_bytes : List ℕ) (chain_id : Text)
      (ins : List TransferableInput) (inidx totalin : ℕ) (d : D) {r : ℕ × ℕ} {d' : D}
      → insert_ins w tx_id creds unsigned_bytes chain_id ins inidx totalin d ≡ (ok r, d')
      → Flowed totalin (inflow w.axc_asset_id ins) r.1
  unfolding insert_ins inflow
  insert_ins-Flowed tx_id creds unsigned_bytes chain_id [] inidx totalin d h =
      subst (λ (p : ℕ × ℕ). Flowed totalin 0 p.1) (pure-eq-ok (inidx, totalin) d h).0
        (omega arith, λ q. q)
  insert_ins-Flowed tx_id creds unsigned_bytes chain_id (input ∷ ins) inidx totalin d {r} h =
      let (total, d1, e1, h1) = bind-ok _ _ d h in
      then_flow input.asset_id totalin input.amount total (inflow w.axc_asset_id ins) r.1
        (insert_transaction_ins-Counted inidx totalin input tx_id creds unsigned_bytes chain_id d
          e1)
        (insert_ins-Flowed tx_id creds unsigned_bytes chain_id ins (inidx + 1) total d1 h1)

  pub insert_outs-Flowed :
      (tx_id : Ident) (chain_id : Text) (stake : Bool) (outs : List TransferableOutput)
      (idx totalout : ℕ) (d : D) {r : ℕ × ℕ} {d' : D}
      → insert_outs w tx_id chain_id stake outs idx totalout d ≡ (ok r, d')
      → Flowed totalout (outflow w.axc_asset_id outs) r.1
  unfolding insert_outs insert_transaction_outs outflow
  insert_outs-Flowed tx_id chain_id stake [] idx totalout d h =
      subst (λ (p : ℕ × ℕ). Flowed totalout 0 p.1) (pure-eq-ok (idx, totalout) d h).0
        (omega arith, λ q. q)
  insert_outs-Flowed tx_id chain_id stake (out ∷ outs) idx totalout d {r} h =
      let (total, d1, e1, h1) = bind-ok _ _ d h in
      let (p, d2, e2, h2) = bind-ok _ _ d e1 in
      then_flow out.asset_id totalout (state_amount out.out) total (outflow w.axc_asset_id outs) r.1
        (subst (Counted out.asset_id totalout (state_amount out.out)) (pure-eq-ok p.1 d2 h2).0 (
          process_state_out-Counted out.out tx_id idx out.asset_id 0 totalout chain_id stake false d
            e2))
        (insert_outs-Flowed tx_id chain_id stake outs ((idx + 1) % 2 ^ 32) total d1 h1)
