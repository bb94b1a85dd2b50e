-- ===== src/Axc/Writer.antt =====
-- services/indexes/axc/writer.go: a transaction becomes rows of the database. The types of the node
-- that it is given, and the node's functions that it calls, are the parameters here.
pub mod Sums
pub mod Keeps
pub mod Fee
use axia_network_v2_magellan.Prelude.{
  ℕ, ◌+◌, ◌-◌, ◌*◌, ◌%◌, ◌^◌, Bool, true, false, List, [], ◌∷◌, ◌++◌, Option, none, some,
  if◌then◌else◌, ltb, length, take, replicate, get_elem?,
}
use axia_network_v2_magellan.Prelude.Eq.{◌==◌}
use axia_network_v2_magellan.Prelude.Text.{Text, codes, text_eq}
use axia_network_v2_magellan.Prelude.Result.{Result, ok, err}
use axia_network_v2_magellan.Params.Query.{Time, Ident}
use axia_network_v2_magellan.Strconv.{join}
use axia_network_v2_magellan.Db.Exec.{Session, Exec, pure, lift, gets, ◌>>=◌, ◌>>◌, for_each}
use axia_network_v2_magellan.Db.Persist.{
  insert_transactions, insert_outputs_redeeming, insert_outputs, insert_addresses,
  insert_address_chain, insert_output_addresses, update_output_addresses, insert_address_bech32,
  insert_output_address_accumulate_out, insert_output_address_accumulate_in,
  update_output_address_accumulate_in_outputs_processed, insert_output_txs_accumulate,
}
use axia_network_v2_magellan.Db.Rows.{OutputAddressAccumulate, OutputTxsAccumulate, OutputAddresses}
use axia_network_v2_magellan.Axc.Node.{
  AddInsContainer, AddOutsContainer, BaseTx, Credential, Node, OutputOwners, State, TransferOutput,
  TransferableInput, TransferableOutput, nft_mint_output, nft_transfer_output, other_credential,
  other_output, secp, secp_mint_output, secp_transfer_output, stakeable_lock_out,
}
use axia_network_v2_magellan.Axc.Outputs.{
  Writer, add_axc, compute_id, insert_address_from_public_key, insert_output, insert_output_address,
  insert_owner, insert_transaction_outs, process_state_out, redeem, short_id, x_out,
}
use axia_network_v2_magellan.Axc.Inputs.{
  insert_credential, insert_signature, insert_transaction_ins,
}

abbrev pub max_serialization_len : ℕ
max_serialization_len = 16 * 1024 * 1024 - 1

abbrev pub max_memo_len : ℕ
max_memo_len = 1024

abbrev pub fitting_memo : Option (List ℕ) → Option (List ℕ)
fitting_memo none = none
fitting_memo (some memo) = if ltb max_memo_len (length memo) then none else some memo

-- Sums and differences of 64 bits wrap around.
unfoldable pub tx_fee : ℕ → ℕ → ℕ → Bool → ℕ
tx_fee totalin totalout addl_out_txfee genesis =
    let spent = (totalout + addl_out_txfee) % 2 ^ 64 in
    let fee = (totalin + 2 ^ 64 - spent) % 2 ^ 64 in
    if genesis then 0 else if ltb totalin spent then 0 else fee

module _ {D : Type 0} (w : Writer D) where
  unfoldable pub insert_transaction_base :
      Ident → Text → Text → Option (List ℕ) → List ℕ → ℕ → Bool → ℕ → Exec D Unit
  insert_transaction_base tx_id chain_id tx_type memo tx_bytes txfee genesis network_id =
      insert_transactions w.session
        (record {
          id = w.node.id_string tx_id;
          chain_id = chain_id;
          tx_type = tx_type;
          memo = fitting_memo memo;
          canonical_serialization =
              if ltb max_serialization_len (length tx_bytes) then [] else tx_bytes;
          txfee = txfee;
          network_id = network_id;
          genesis = genesis;
          created_at = w.ctx_time;
        })
        w.perform_updates

  -- The loops over the inputs and the outputs: the next index and the sum
  unfoldable pub insert_ins :
      Ident → List Credential → List ℕ → Text → List TransferableInput → ℕ → ℕ → Exec D (ℕ × ℕ)
  insert_ins tx_id creds unsigned_bytes chain_id [] inidx totalin = pure (inidx, totalin)
  insert_ins tx_id creds unsigned_bytes chain_id (input ∷ ins) inidx totalin = do
    total ← insert_transaction_ins w inidx totalin input tx_id creds unsigned_bytes chain_id
    insert_ins tx_id creds unsigned_bytes chain_id ins (inidx + 1) total

  unfoldable pub insert_outs :
      Ident → Text → Bool → List TransferableOutput → ℕ → ℕ → Exec D (ℕ × ℕ)
  insert_outs tx_id chain_id stake [] idx totalout = pure (idx, totalout)
  insert_outs tx_id chain_id stake (out ∷ outs) idx totalout = do
    total ← insert_transaction_outs w idx totalout out tx_id chain_id stake false
    insert_outs tx_id chain_id stake outs ((idx + 1) % 2 ^ 32) total

  unfoldable pub insert_add_ins :
      Ident → List Credential → List ℕ → Option AddInsContainer → ℕ → ℕ → Exec D (ℕ × ℕ)
  insert_add_ins tx_id creds unsigned_bytes none inidx totalin = pure (inidx, totalin)
  insert_add_ins tx_id creds unsigned_bytes (some more) inidx totalin =
      insert_ins tx_id creds unsigned_bytes more.chain_id more.ins inidx totalin

  unfoldable pub insert_add_outs : Ident → Option AddOutsContainer → ℕ → ℕ → Exec D (ℕ × ℕ)
  insert_add_outs tx_id none idx totalout = pure (idx, totalout)
  insert_add_outs tx_id (some more) idx totalout =
      insert_outs tx_id more.chain_id more.stake more.outs idx totalout

  unfoldable pub insert_transaction :
      List ℕ
      → List ℕ
      → BaseTx
      → List Credential
      → Text
      → Option AddInsContainer
      → Option AddOutsContainer
      → ℕ
      → Bool
      → Exec D Unit
  insert_transaction tx_bytes unsigned_bytes base_tx creds tx_type add_ins add_outs addl_out_txfee
        genesis =
      do
        i ← insert_ins base_tx.id creds unsigned_bytes w.chain_id base_tx.ins 0 0
        j ← insert_add_ins base_tx.id creds unsigned_bytes add_ins i.0 i.1
        k ← insert_outs base_tx.id w.chain_id false base_tx.outs 0 0
        l ← insert_add_outs base_tx.id add_outs k.0 k.1
        insert_transaction_base base_tx.id w.chain_id tx_type base_tx.memo tx_bytes
            (tx_fee j.1 l.1 addl_out_txfee genesis) genesis base_tx.network_id
