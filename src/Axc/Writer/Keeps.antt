-- ===== src/Axc/Writer/Keeps.antt =====
-- The writer of services/indexes/axc/writer.go changes the state by its
-- statements only.
use axia_network_v2_magellan.Prelude.{ℕ, Bool, false, List, [], ◌∷◌, Option, none, some}
use axia_network_v2_magellan.Prelude.Text.{Text}
use axia_network_v2_magellan.Params.Query.{Ident}
use axia_network_v2_magellan.Db.Exec.{Exec}
use axia_network_v2_magellan.Db.Keeps.{
  IsClosed, Keeps, ◌then◌, each, lifts, pures, reads, stricts, tolerates, upserts,
}
use axia_network_v2_magellan.Db.Persist.{
  insert_address_bech32, insert_address_chain, insert_addresses,
  insert_output_address_accumulate_in, insert_output_address_accumulate_out,
  insert_output_addresses, insert_output_txs_accumulate, insert_outputs, insert_outputs_redeeming,
  insert_transactions, update_output_address_accumulate_in_outputs_processed,
  update_output_addresses,
}
use axia_network_v2_magellan.Axc.Node.{
  AddInsContainer, AddOutsContainer, BaseTx, Credential, State, TransferOutput, TransferableInput,
  TransferableOutput, nft_mint_output, nft_transfer_output, other_credential, other_output, secp,
  secp_mint_output, secp_transfer_output, stakeable_lock_out,
}
use axia_network_v2_magellan.Axc.Outputs.{
  Writer, insert_address_from_public_key, insert_output, insert_output_address, insert_owner,
  insert_transaction_outs, process_state_out, redeem,
}
use axia_network_v2_magellan.Axc.Inputs.{
  insert_credential, insert_signature, insert_transaction_ins,
}
use axia_network_v2_magellan.Axc.Writer.{
  insert_add_ins, insert_add_outs, insert_ins, insert_outs, insert_transaction,
  insert_transaction_base,
}

module _ {D : Type 0} (w : Writer D) (R : D → D → Type 0) ⦃k : IsClosed w.session R⦄ where
  redeem-Keeps :
      (sig : Option (List ℕ)) {m : Exec D Unit}
      → Keeps w.session R m
      → Keeps w.session R (redeem w sig m)
  unfolding redeem
  redeem-Keeps none h = pures _
  redeem-Keeps (some x) h = h

  insert_output_address-Keeps :
      (output_id address : Ident) (sig : Option (List ℕ)) (tx_id : Ident) (idx : ℕ)
      (chain_id : Text)
      → Keeps w.session R (insert_output_address w output_id address sig tx_id idx chain_id)
  unfolding insert_output_address insert_address_chain insert_address_bech32
      insert_output_address_accumulate_out insert_output_address_accumulate_in
      insert_output_addresses update_output_addresses
  insert_output_address-Keeps output_id address sig tx_id idx chain_id = reads _ then (λ t1.
      upserts _ _ _ _ _ _ then (λ u1. lifts _ then (λ bech32. reads _ then (λ t2.
        upserts _ _ _ _ _ _ then (λ u2. reads _ then (λ t3. lifts _ then (λ id.
          upserts _ _ _ _ _ _ then (λ u3. upserts _ _ _ _ _ _ then (λ u4.
            reads _
            then (λ t4. upserts _ _ _ _ _ _ then (λ u5. redeem-Keeps sig (stricts _ _))))))))))))

  insert_address_from_public_key-Keeps :
      (public_key : List ℕ) → Keeps w.session R (insert_address_from_public_key w public_key)
  unfolding insert_address_from_public_key insert_addresses
  insert_address_from_public_key-Keeps public_key = reads _ then (λ t. upserts _ _ _ _ _ _)

  insert_owner-Keeps :
      (output_id tx_id : Ident) (idx : ℕ) (asset_id : Ident) (chain_id : Text) (addr : List ℕ)
      → Keeps w.session R (insert_owner w output_id tx_id idx asset_id chain_id addr)
  unfolding insert_owner insert_output_txs_accumulate
  insert_owner-Keeps output_id tx_id idx asset_id chain_id addr =
      insert_output_address-Keeps output_id _ none tx_id idx chain_id
      then (λ u. reads _ then (λ t. lifts _ then (λ id. tolerates _ _)))

  insert_output-Keeps :
      (tx_id : Ident) (idx : ℕ) (asset_id : Ident) (out : TransferOutput) (output_type group_id : ℕ)
      (payload : Option (List ℕ)) (stake_locktime : ℕ) (chain_id : Text)
      (stake frozen stakeableout genesisutxo : Bool)
      → Keeps w.session R (
          insert_output w tx_id idx asset_id out output_type group_id payload stake_locktime
            chain_id stake frozen stakeableout genesisutxo)
  unfolding insert_output insert_outputs
  insert_output-Keeps tx_id idx asset_id out output_type group_id payload stake_locktime chain_id
        stake frozen stakeableout genesisutxo =
      each _ (λ a. insert_owner-Keeps _ tx_id idx asset_id chain_id a)
      then (λ u. upserts _ _ _ _ _ _)

  pub process_state_out-Keeps :
      (st : State) (tx_id : Ident) (count : ℕ) (asset : Ident) (amount totalout : ℕ)
      (chain_id : Text) (stake genesisutxo : Bool)
      → Keeps w.session R
          (process_state_out w st tx_id count asset amount totalout chain_id stake genesisutxo)
  unfolding process_state_out
  process_state_out-Keeps (stakeable_lock_out locktime none) tx_id count asset amount totalout
        chain_id stake genesisutxo =
      lifts _
  process_state_out-Keeps (stakeable_lock_out locktime (some out)) tx_id count asset amount totalout
        chain_id stake genesisutxo =
      lifts _ then (λ total. insert_output-Keeps _ _ _ _ _ _ _ _ _ _ _ _ _ then (λ u. pures _))
  process_state_out-Keeps (nft_transfer_output group_id payload oo) tx_id count asset amount
        totalout chain_id stake genesisutxo =
      insert_output-Keeps _ _ _ _ _ _ _ _ _ _ _ _ _ then (λ u. pures _)
  process_state_out-Keeps (nft_mint_output group_id oo) tx_id count asset amount totalout chain_id
        stake genesisutxo =
      insert_output-Keeps _ _ _ _ _ _ _ _ _ _ _ _ _ then (λ u. pures _)
  process_state_out-Keeps (secp_mint_output oo) tx_id count asset amount totalout chain_id stake
        genesisutxo =
      insert_output-Keeps _ _ _ _ _ _ _ _ _ _ _ _ _ then (λ u. pures _)
  process_state_out-Keeps (secp_transfer_output out) tx_id count asset amount totalout chain_id
        stake genesisutxo =
      lifts _ then (λ total.
        insert_output-Keeps _ _ _ _ _ _ _ _ _ _ _ _ _ then (λ u. lifts _ then (λ sum. pures _)))
  process_state_out-Keeps (other_output name) tx_id count asset amount totalout chain_id stake
        genesisutxo =
      lifts _

  insert_outs-Keeps :
      (tx_id : Ident) (chain_id : Text) (stake : Bool) (outs : List TransferableOutput)
      (idx totalout : ℕ)
      → Keeps w.session R (insert_outs w tx_id chain_id stake outs idx totalout)
  unfolding insert_outs insert_transaction_outs
  insert_outs-Keeps tx_id chain_id stake [] idx totalout = pures _
  insert_outs-Keeps tx_id chain_id stake (out ∷ outs) idx totalout =
      (process_state_out-Keeps out.out tx_id idx out.asset_id 0 totalout chain_id stake false
        then (λ r. pures _))
      then (λ total. insert_outs-Keeps tx_id chain_id stake outs _ total)

  insert_signature-Keeps :
      (input : TransferableInput) (input_id : Ident) (unsigned_bytes : List ℕ) (chain_id : Text)
      (sig : List ℕ)
      → Keeps w.session R (insert_signature w input input_id unsigned_bytes chain_id sig)
  unfolding insert_signature
  insert_signature-Keeps input input_id unsigned_bytes chain_id sig = lifts _ then (λ key.
      insert_address_from_public_key-Keeps key then (λ u. insert_output_address-Keeps _ _ _ _ _ _))

  insert_credential-Keeps :
      (input : TransferableInput) (input_id : Ident) (unsigned_bytes : List ℕ) (chain_id : Text)
      (o : Option Credential)
      → Keeps w.session R (insert_credential w input input_id unsigned_bytes chain_id o)
  unfolding insert_credential
  insert_credential-Keeps input input_id unsigned_bytes chain_id none = pures _
  insert_credential-Keeps input input_id unsigned_bytes chain_id (some other_credential) = pures _
  insert_credential-Keeps input input_id unsigned_bytes chain_id (some (secp sigs)) =
      each _ (insert_signature-Keeps input input_id unsigned_bytes chain_id)

  insert_ins-Keeps :
      (tx_id : Ident) (creds : List Credential) (unsigned_bytes : List ℕ) (chain_id : Text)
      (ins : List TransferableInput) (inidx totalin : ℕ)
      → Keeps w.session R (insert_ins w tx_id creds unsigned_bytes chain_id ins inidx totalin)
  unfolding insert_ins insert_transaction_ins insert_outputs_redeeming
      update_output_address_accumulate_in_outputs_processed
  insert_ins-Keeps tx_id creds unsigned_bytes chain_id [] inidx totalin = pures _
  insert_ins-Keeps tx_id creds unsigned_bytes chain_id (input ∷ ins) inidx totalin =
      (lifts _ then (λ total.
        insert_credential-Keeps _ _ _ _ _
        then (λ u1. tolerates _ _ then (λ u2. upserts _ _ _ _ _ _ then (λ u3. pures _)))))
      then (λ total. insert_ins-Keeps tx_id creds unsigned_bytes chain_id ins _ total)

  insert_add_ins-Keeps :
      (tx_id : Ident) (creds : List Credential) (unsigned_bytes : List ℕ)
      (more : Option AddInsContainer) (inidx totalin : ℕ)
      → Keeps w.session R (insert_add_ins w tx_id creds unsigned_bytes more inidx totalin)
  unfolding insert_add_ins
  insert_add_ins-Keeps tx_id creds unsigned_bytes none inidx totalin = pures _
  insert_add_ins-Keeps tx_id creds unsigned_bytes (some more) inidx totalin =
      insert_ins-Keeps tx_id creds unsigned_bytes more.chain_id more.ins inidx totalin

  insert_add_outs-Keeps :
      (tx_id : Ident) (more : Option AddOutsContainer) (idx totalout : ℕ)
      → Keeps w.session R (insert_add_outs w tx_id more idx totalout)
  unfolding insert_add_outs
  insert_add_outs-Keeps tx_id none idx totalout = pures _
  insert_add_outs-Keeps tx_id (some more) idx totalout =
      insert_outs-Keeps tx_id more.chain_id more.stake more.outs idx totalout

  pub insert_transaction-Keeps :
      (tx_bytes unsigned_bytes : List ℕ) (base_tx : BaseTx) (creds : List Credential)
      (tx_type : Text) (add_ins : Option AddInsContainer) (add_outs : Option AddOutsContainer)
      (addl : ℕ) (genesis : Bool)
      → Keeps w.session R (
          insert_transaction w tx_bytes unsigned_bytes base_tx creds tx_type add_ins add_outs addl
            genesis)
  unfolding insert_transaction insert_transaction_base insert_transactions
  insert_transaction-Keeps tx_bytes unsigned_bytes base_tx creds tx_type add_ins add_outs addl
        genesis =
      insert_ins-Keeps _ _ _ _ _ _ _ then (λ i. insert_add_ins-Keeps _ _ _ _ _ _ then (λ j.
        insert_outs-Keeps _ _ _ _ _ _
        then (λ k. insert_add_outs-Keeps _ _ _ _ then (λ l. upserts _ _ _ _ _ _))))
