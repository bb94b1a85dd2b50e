-- ===== src/Axc/Outputs.antt =====
-- services/indexes/axc/writer.go: the rows of an output and of its addresses.
use axia_network_v2_magellan.Prelude.{
  ℕ, Bool, true, false, List, [], ◌∷◌, ◌++◌, Option, none, some, if◌then◌else◌, take, replicate,
}
use axia_network_v2_magellan.Prelude.Eq.{◌==◌}
use axia_network_v2_magellan.Prelude.Text.{Text, codes, text_eq}
use axia_network_v2_magellan.Prelude.Result.{Result, ok, err}
use axia_network_v2_magellan.Params.Query.{Time, Ident}
use axia_network_v2_magellan.Strconv.{join}
use axia_network_v2_magellan.Db.Exec.{Session, Exec, pure, lift, gets, ◌>>=◌, ◌>>◌, for_each}
use axia_network_v2_magellan.Db.Persist.{
  insert_outputs, insert_addresses, insert_address_chain, insert_output_addresses,
  update_output_addresses, insert_address_bech32, insert_output_address_accumulate_out,
  insert_output_address_accumulate_in, insert_output_txs_accumulate,
}
use axia_network_v2_magellan.Db.Rows.{OutputAddressAccumulate, OutputAddresses}
use axia_network_v2_magellan.Axc.Node.{
  Node, OutputOwners, State, TransferOutput, TransferableOutput, nft_mint_output,
  nft_transfer_output, other_output, secp_mint_output, secp_transfer_output, stakeable_lock_out,
}

-- `Writer`, with the consumer context and the setting that it reads.
pub record Writer (D : Type 0) : Type 0 where
  pub chain_id : Text
  pub axc_asset_id : Ident
  pub node : Node
  pub session : Session D
  pub ctx_time : Time
  pub perform_updates : Bool

-- `copy(addrBytes[:], addr)` of 20 bytes
unfoldable pub short_id : List ℕ → Ident
short_id addr = take 20 (addr ++ replicate 20 0)

unfoldable pub compute_id : Node → List Text → Result Text Text
compute_id node parts = elim (node.to_id (node.compute_hash256 (join (codes ":") parts))) [
  | err e ↦ err e
  | ok id ↦ ok (node.id_string id)
]

abbrev accumulate_row : Node → Text → Ident → Ident → Ident → ℕ → Time → OutputAddressAccumulate
accumulate_row node id output_id address tx_id idx created = record {
  id = id;
  output_id = node.id_string output_id;
  address = node.short_string address;
  processed = 0;
  output_processed = 0;
  transaction_id = node.id_string tx_id;
  output_index = idx;
  created_at = created;
}

-- `Amt` and the owners; the outputs with no amount have the zero one.
abbrev pub x_out : OutputOwners → TransferOutput
x_out oo = record { amt = 0; owners = oo }

module _ {D : Type 0} (w : Writer D) where
  unfoldable pub insert_address_from_public_key : List ℕ → Exec D Unit
  insert_address_from_public_key public_key = do
    updated ← gets w.session.now
    insert_addresses w.session
        (record {
          address = w.node.short_string (w.node.key_address public_key);
          public_key = public_key;
          created_at = w.ctx_time;
          updated_at = updated;
        })
        w.perform_updates

  -- The signature is stored by the insert too, and again by the update that no setting turns off.
  unfoldable pub redeem : Option (List ℕ) → Exec D Unit → Exec D Unit
  redeem none store = pure tt
  redeem (some sig) store = store

  unfoldable pub insert_output_address :
      Ident → Ident → Option (List ℕ) → Ident → ℕ → Text → Exec D Unit
  insert_output_address output_id address sig tx_id idx chain_id = do
    updated ← gets w.session.now
    insert_address_chain w.session
        (record {
          address = w.node.short_string address;
          chain_id = chain_id;
          created_at = w.ctx_time;
          updated_at = updated;
        })
        w.perform_updates
    bech32_addr ← lift (w.node.format_bech32 address)
    bech32_updated ← gets w.session.now
    insert_address_bech32 w.session
        (record {
          address = w.node.short_string address;
          bech32_address = bech32_addr;
          updated_at = bech32_updated;
        })
        w.perform_updates
    created ← gets w.session.now
    id ← lift (compute_id w.node (w.node.id_string output_id ∷ w.node.short_string address ∷ []))
    let accumulate = accumulate_row w.node id output_id address tx_id idx created
    insert_output_address_accumulate_out w.session accumulate w.perform_updates
    insert_output_address_accumulate_in w.session accumulate w.perform_updates
    address_updated ← gets w.session.now
    let row : OutputAddresses = record {
      output_id = w.node.id_string output_id;
      address = w.node.short_string address;
      redeeming_signature = sig;
      created_at = w.ctx_time;
      updated_at = address_updated;
    }
    insert_output_addresses w.session row w.perform_updates
    redeem sig (update_output_addresses w.session row)

  -- The loop over an output's owners
  unfoldable pub insert_owner : Ident → Ident → ℕ → Ident → Text → List ℕ → Exec D Unit
  insert_owner output_id tx_id idx asset_id chain_id addr = do
    let addrid = short_id addr
    insert_output_address output_id addrid none tx_id idx chain_id
    created ← gets w.session.now
    id ← lift (
        compute_id w.node (
          chain_id
          ∷ w.node.id_string asset_id
          ∷ w.node.short_string addrid
          ∷ w.node.id_string tx_id
          ∷ []))
    insert_output_txs_accumulate w.session (record {
      id = id;
      chain_id = chain_id;
      asset_id = w.node.id_string asset_id;
      address = w.node.short_string addrid;
      transaction_id = w.node.id_string tx_id;
      processed = 0;
      created_at = created;
    })

  unfoldable pub insert_output :
      Ident
      → ℕ
      → Ident
      → TransferOutput
      → ℕ
      → ℕ
      → Option (List ℕ)
      → ℕ
      → Text
      → (stake frozen stakeableout genesisutxo : Bool) → Exec D Unit
  insert_output tx_id idx asset_id out output_type group_id payload stake_locktime chain_id stake
        frozen stakeableout genesisutxo =
      do
        let output_id = w.node.prefix tx_id idx
        for_each (insert_owner output_id tx_id idx asset_id chain_id) out.owners.addresses
        insert_outputs w.session
            (record {
              id = w.node.id_string output_id;
              chain_id = chain_id;
              transaction_id = w.node.id_string tx_id;
              output_index = idx;
              output_type = output_type;
              asset_id = w.node.id_string asset_id;
              amount = out.amt;
              locktime = out.owners.locktime;
              threshold = out.owners.threshold;
              group_id = group_id;
              payload = payload;
              stake_locktime = stake_locktime;
              stake = stake;
              frozen = frozen;
              stakeableout = stakeableout;
              genesisutxo = genesisutxo;
              created_at = w.ctx_time;
            })
            w.perform_updates

  -- The sum that counts only the AXC asset
  unfoldable pub add_axc : Ident → ℕ → ℕ → Result Text ℕ
  add_axc asset_id total amt =
      if asset_id == w.axc_asset_id then w.node.add64 total amt else ok total

  -- The outputs' amount and the sum of AXC, each with the output added
  unfoldable pub process_state_out :
      State → Ident → ℕ → Ident → ℕ → ℕ → Text → Bool → Bool → Exec D (ℕ × ℕ)
  process_state_out (stakeable_lock_out locktime none) tx_id output_count asset_id amount totalout
        chain_id stake genesisutxo =
      lift (err (codes "invalid type *secp256k1fx.TransferOutput"))
  process_state_out (stakeable_lock_out locktime (some out)) tx_id output_count asset_id amount
        totalout chain_id stake genesisutxo =
      do
        total ← lift (add_axc asset_id totalout out.amt)
        insert_output tx_id output_count asset_id out 7 0 none locktime chain_id stake false true
            genesisutxo
        pure (amount, total)
  process_state_out (nft_transfer_output group_id payload oo) tx_id output_count asset_id amount
        totalout chain_id stake genesisutxo =
      do
        insert_output tx_id output_count asset_id (x_out oo) 11 group_id (some payload) 0 chain_id
            stake false false genesisutxo
        pure (amount, totalout)
  process_state_out (nft_mint_output group_id oo) tx_id output_count asset_id amount totalout
        chain_id stake genesisutxo =
      do
        insert_output tx_id output_count asset_id (x_out oo) 10 group_id none 0 chain_id stake false
            false genesisutxo
        pure (amount, totalout)
  process_state_out (secp_mint_output oo) tx_id output_count asset_id amount totalout chain_id stake
        genesisutxo =
      do
        insert_output tx_id output_count asset_id (x_out oo) 6 0 none 0 chain_id stake false false
            genesisutxo
        pure (amount, totalout)
  process_state_out (secp_transfer_output out) tx_id output_count asset_id amount totalout chain_id
        stake genesisutxo =
      do
        total ← lift (add_axc asset_id totalout out.amt)
        insert_output tx_id output_count asset_id out 7 0 none 0 chain_id stake false false
            genesisutxo
        sum ← lift (w.node.add64 amount out.amt)
        pure (sum, total)
  process_state_out (other_output name) tx_id output_count asset_id amount totalout chain_id stake
        genesisutxo =
      lift (err (codes "unknown type " ++ name))

  unfoldable pub insert_transaction_outs :
      ℕ → ℕ → TransferableOutput → Ident → Text → Bool → Bool → Exec D ℕ
  insert_transaction_outs idx totalout out tx_id chain_id stake genesisutxo = do
    r ← process_state_out out.out tx_id idx out.asset_id 0 totalout chain_id stake genesisutxo
    pure r.1
