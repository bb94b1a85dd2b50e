-- ===== src/Axc/Node.antt =====
-- What services/indexes/axc/writer.go is given: the node's transactions, and the functions of the
-- node's packages, which are parameters here. The containers of additional inputs and outputs are the
-- writer's own.
use axia_network_v2_magellan.Prelude.{ℕ, Bool, List, Option}
use axia_network_v2_magellan.Prelude.Text.{Text, text_eq}
use axia_network_v2_magellan.Prelude.Result.{Result}
use axia_network_v2_magellan.Params.Query.{Ident}

pub record OutputOwners : Type 0 where
  pub locktime : ℕ
  pub threshold : ℕ
  pub addresses : List (List ℕ)

pub record TransferOutput : Type 0 where
  pub amt : ℕ
  pub owners : OutputOwners

-- The values that `verify.State` takes; `none` is an output of another type under the lock.
pub data State : Type 0 where
  stakeable_lock_out : ℕ → Option TransferOutput → State
  nft_transfer_output : ℕ → List ℕ → OutputOwners → State
  nft_mint_output : ℕ → OutputOwners → State
  secp_mint_output : OutputOwners → State
  secp_transfer_output : TransferOutput → State
  other_output : Text → State

pub record TransferableOutput : Type 0 where
  pub asset_id : Ident
  pub out : State

pub record TransferableInput : Type 0 where
  pub tx_id : Ident
  pub output_index : ℕ
  pub asset_id : Ident
  pub amount : ℕ

-- The signatures of a `secp256k1fx.Credential`.
pub data Credential : Type 0 where
  secp : List (List ℕ) → Credential
  other_credential : Credential

pub record BaseTx : Type 0 where
  pub id : Ident
  pub network_id : ℕ
  pub ins : List TransferableInput
  pub outs : List TransferableOutput
  pub memo : Option (List ℕ)

pub record AddInsContainer : Type 0 where
  pub ins : List TransferableInput
  pub chain_id : Text

pub record AddOutsContainer : Type 0 where
  pub outs : List TransferableOutput
  pub stake : Bool
  pub chain_id : Text

-- The functions of the node's packages; a public key is given by its bytes.
pub record Node : Type 0 where
  pub add64 : ℕ → ℕ → Result Text ℕ
  pub id_string : Ident → Text
  pub prefix : Ident → ℕ → Ident
  pub short_string : Ident → Text
  pub recover_public_key : List ℕ → List ℕ → Result Text (List ℕ)
  pub key_address : List ℕ → Ident
  pub format_bech32 : Ident → Result Text Text
  pub compute_hash256 : List ℕ → List ℕ
  pub to_id : List ℕ → Result Text Ident
