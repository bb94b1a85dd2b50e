-- ===== src/Axc/Inputs.antt =====
-- services/indexes/axc/writer.go: the rows of an input and of its signatures.
use axia_network_v2_magellan.Prelude.{ℕ, List, Option, none, some, get_elem?}
use axia_network_v2_magellan.Prelude.Text.{Text, text_eq}
use axia_network_v2_magellan.Params.Query.{Ident}
use axia_network_v2_magellan.Db.Exec.{Exec, pure, lift, ◌>>=◌, ◌>>◌, for_each}
use axia_network_v2_magellan.Db.Persist.{
  insert_outputs_redeeming, update_output_address_accumulate_in_outputs_processed,
}
use axia_network_v2_magellan.Axc.Node.{Credential, TransferableInput, other_credential, secp}
use axia_network_v2_magellan.Axc.Outputs.{
  Writer, add_axc, insert_address_from_public_key, insert_output_address,
}

module _ {D : Type 0} (w : Writer D) where
  -- The loop over a credential's signatures
  unfoldable pub insert_signature : TransferableInput → Ident → List ℕ → Text → List ℕ → Exec D Unit
  insert_signature input input_id unsigned_bytes chain_id sig = do
    public_key ← lift (w.node.recover_public_key unsigned_bytes sig)
    insert_address_from_public_key w public_key
    insert_output_address w input_id (w.node.key_address public_key) (some sig) input.tx_id
        input.output_index chain_id

  unfoldable pub insert_credential :
      TransferableInput → Ident → List ℕ → Text → Option Credential → Exec D Unit
  insert_credential input input_id unsigned_bytes chain_id none = pure tt
  insert_credential input input_id unsigned_bytes chain_id (some other_credential) = pure tt
  insert_credential input input_id unsigned_bytes chain_id (some (secp sigs)) =
      for_each (insert_signature input input_id unsigned_bytes chain_id) sigs

  unfoldable pub insert_transaction_ins :
      ℕ → ℕ → TransferableInput → Ident → List Credential → List ℕ → Text → Exec D ℕ
  insert_transaction_ins idx totalin input tx_id creds unsigned_bytes chain_id = do
    total ← lift (add_axc w input.asset_id totalin input.amount)
    let input_id = w.node.prefix input.tx_id input.output_index
    insert_credential input input_id unsigned_bytes chain_id (get_elem? creds idx)
    update_output_address_accumulate_in_outputs_processed w.session (w.node.id_string input_id)
    insert_outputs_redeeming w.session
        (record {
          id = w.node.id_string input_id;
          redeemed_at = w.ctx_time;
          redeeming_transaction_id = w.node.id_string tx_id;
          amount = input.amount;
          output_index = input.output_index;
          intx = w.node.id_string input.tx_id;
          asset_id = w.node.id_string input.asset_id;
          chain_id = chain_id;
          created_at = w.ctx_time;
        })
        w.perform_updates
    pure total
