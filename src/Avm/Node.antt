-- ===== src/Avm/Node.antt =====
-- What services/indexes/avm/writer.go is given: the exchange chain's transactions, and the functions of the
-- node's packages, which are parameters.
use axia_network_v2_magellan.Prelude.{ℕ, Bool, List}
use axia_network_v2_magellan.Prelude.Text.{Text}
use axia_network_v2_magellan.Prelude.Result.{Result}
use axia_network_v2_magellan.Params.Query.{Ident}
use axia_network_v2_magellan.Axc.Node.{
  BaseTx, Credential, State, TransferableInput, TransferableOutput,
}

-- An operation on an asset: the outputs that it uses, by transaction and index, and those it makes.
pub record Operation : Type 0 where
  pub asset_id : Ident
  pub utxo_ids : List (Ident × ℕ)
  pub outs : List State

-- The states are lists of outputs, one for each kind.
pub record CreateAssetTx : Type 0 where
  pub base_tx : BaseTx
  pub name : Text
  pub symbol : Text
  pub denomination : ℕ
  pub states : List (List State)

pub data UnsignedTx : Type 0 where
  create_asset_tx : CreateAssetTx → UnsignedTx
  operation_tx : BaseTx → List Operation → UnsignedTx
  import_tx : BaseTx → List TransferableInput → Ident → UnsignedTx
  export_tx : BaseTx → List TransferableOutput → Ident → UnsignedTx
  plain_tx : BaseTx → UnsignedTx
  other_tx : Text → UnsignedTx

pub record Tx : Type 0 where
  pub unsigned_tx : UnsignedTx
  pub creds : List Credential
  pub unsigned_bytes : List ℕ

pub record GenesisAsset : Type 0 where
  pub alias : Text
  pub asset : CreateAssetTx

-- A vertex: its id, its epoch, and the bytes of its transactions
pub record Vertex : Type 0 where
  pub id : Ident
  pub epoch : ℕ
  pub txs : List (List ℕ)

-- A transaction of the platform's genesis: one that creates a chain, by whether its machine is the
-- exchange chain's and with its genesis data, or another.
pub data GenesisChain : Type 0 where
  create_chain : (is_avm : Bool) → List ℕ → GenesisChain
  other_chain : GenesisChain

-- The bytes of a transaction are those that its codec wrote or that it was read from. `initialize` sets
-- them. `propagate` wraps an error with a message.
pub record Exchange : Type 0 where
  pub unmarshal : List ℕ → Result Text (ℕ × Tx)
  pub marshal_unsigned : ℕ → UnsignedTx → Result Text (List ℕ)
  pub initialize : Tx → (unsigned_bytes bytes : List ℕ) → Tx
  pub unmarshal_genesis : List ℕ → Result Text (ℕ × List GenesisAsset)
  pub marshal_asset_tx : ℕ → CreateAssetTx → Result Text (List ℕ)
  pub marshal_asset : ℕ → CreateAssetTx → Result Text (List ℕ)
  pub parse_vertex : List ℕ → Result Text Vertex
  pub propagate : Text → Text → Text
