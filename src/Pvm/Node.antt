-- ===== src/Pvm/Node.antt =====
-- What services/indexes/pvm/writer.go is given: the platform chain's blocks and transactions, and the
-- functions of the node's packages, which are parameters.
use axia_network_v2_magellan.Prelude.{ℕ, Bool, List, Option}
use axia_network_v2_magellan.Prelude.Text.{Text}
use axia_network_v2_magellan.Prelude.Result.{Result}
use axia_network_v2_magellan.Params.Query.{Ident, Time}
use axia_network_v2_magellan.Axc.Node.{
  BaseTx, Credential, OutputOwners, State, TransferableInput, TransferableOutput,
}

pub record Validator : Type 0 where
  pub node_id : Ident
  pub start : ℕ
  pub end_time : ℕ

-- A nil owner, a `secp256k1fx.OutputOwners`, or a value of another type.
pub data RewardsOwner : Type 0 where
  no_owner : RewardsOwner
  output_owners : OutputOwners → RewardsOwner
  other_owner : Text → RewardsOwner

pub data UnsignedTx : Type 0 where
  add_validator_tx : BaseTx → List TransferableOutput → Validator → RewardsOwner → UnsignedTx
  add_subnet_validator_tx : BaseTx → UnsignedTx
  add_delegator_tx : BaseTx → List TransferableOutput → Validator → RewardsOwner → UnsignedTx
  create_subnet_tx : BaseTx → UnsignedTx
  create_chain_tx : BaseTx → UnsignedTx
  import_tx : BaseTx → List TransferableInput → Ident → UnsignedTx
  export_tx : BaseTx → List TransferableOutput → Ident → UnsignedTx
  advance_time_tx : UnsignedTx
  -- its own id, the id of the transaction that it rewards, and whether it prefers to commit
  reward_validator_tx : Ident → Ident → Bool → UnsignedTx
  other_tx : Text → UnsignedTx

pub record Tx : Type 0 where
  pub unsigned_tx : UnsignedTx
  pub creds : List Credential
  pub unsigned_bytes : List ℕ
  pub bytes : List ℕ

pub record CommonBlock : Type 0 where
  pub parent : Ident
  pub height : ℕ

pub data Block : Type 0 where
  proposal_block : CommonBlock → Tx → Block
  standard_block : CommonBlock → List Tx → Block
  atomic_block : CommonBlock → Tx → Block
  abort_block : CommonBlock → Block
  commit_block : CommonBlock → Block
  other_block : Text → Block

-- What a `block.SignedBlock` has more than another proposer block.
pub record SignedBlock : Type 0 where
  pub core_chain_height : ℕ
  pub proposer : Ident
  pub timestamp : Time

pub record ProposerBlock : Type 0 where
  pub id : Ident
  pub parent_id : Ident
  pub block : List ℕ
  pub signed : Option SignedBlock

pub record Utxo : Type 0 where
  pub out : State
  pub asset_id : Ident

pub record Genesis : Type 0 where
  pub utxos : List Utxo
  pub validators : List Tx
  pub chains : List Tx

-- `Initialize` sets a transaction's bytes, and what the node derives from them. `propagate` wraps an
-- error with a message.
pub record Platform : Type 0 where
  pub parse_proposer : List ℕ → Result Text ProposerBlock
  pub unmarshal : List ℕ → Result Text (ℕ × Block)
  pub marshal_unsigned : ℕ → UnsignedTx → Result Text (List ℕ)
  pub marshal_signed : ℕ → Tx → Result Text (List ℕ)
  pub initialize : Tx → List ℕ → List ℕ → Tx
  pub hash_id : List ℕ → Ident
  pub node_id_string : Ident → Text
  pub propagate : Text → Text → Text
