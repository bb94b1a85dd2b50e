-- ===== src/Cvm/Node.antt =====
-- What services/indexes/cvm/writer.go is given: the contract chain's blocks, atomic transactions, traces and
-- logs, and the functions of the node's packages, which are parameters.
use axia_network_v2_magellan.Prelude.{ℕ, Bool, List}
use axia_network_v2_magellan.Prelude.Text.{Text}
use axia_network_v2_magellan.Prelude.Result.{Result}
use axia_network_v2_magellan.Params.Query.{Ident}
use axia_network_v2_magellan.Axc.Node.{Credential, TransferableInput, TransferableOutput}

-- What leaves an account for another chain, and what comes to one; addresses are given as text.
pub record EvmInput : Type 0 where
  pub address : Text
  pub amount : ℕ
  pub asset_id : Ident
  pub nonce : ℕ

pub record EvmOutput : Type 0 where
  pub address : Text
  pub amount : ℕ
  pub asset_id : Ident

pub record ExportTx : Type 0 where
  pub blockchain_id : Ident
  pub destination_chain : Ident
  pub ins : List EvmInput
  pub exported_outputs : List TransferableOutput

pub record ImportTx : Type 0 where
  pub blockchain_id : Ident
  pub source_chain : Ident
  pub imported_inputs : List TransferableInput
  pub outs : List EvmOutput

pub data UnsignedAtomicTx : Type 0 where
  unsigned_export_tx : ExportTx → UnsignedAtomicTx
  unsigned_import_tx : ImportTx → UnsignedAtomicTx
  other_atomic_tx : UnsignedAtomicTx

pub record AtomicTx : Type 0 where
  pub id : Ident
  pub unsigned : UnsignedAtomicTx
  pub creds : List Credential

-- A transaction of a block: `to` is the text of its receiver, repaired, or empty, and `json` its JSON.
pub record RawTx : Type 0 where
  pub hash : Text
  pub nonce : ℕ
  pub to : Text
  pub json : Result Text (List ℕ)

-- `json` is that of the block without its transactions.
pub record Block : Type 0 where
  pub number : Text
  pub time : ℕ
  pub nonce : ℕ
  pub hash : Text
  pub parent_hash : Text
  pub block_extra_data : List ℕ
  pub txs : List RawTx
  pub json : Result Text (List ℕ)

pub record Log : Type 0 where
  pub block_hash : Text
  pub tx_hash : Text
  pub index : ℕ
  pub block_number : ℕ
  pub topics : List Text
  pub removed : Bool

-- A trace, and the fields of its JSON
pub record TransactionTrace : Type 0 where
  pub hash : Text
  pub idx : ℕ
  pub trace : List ℕ

pub record TraceModel : Type 0 where
  pub to_addr : Text
  pub from_addr : Text
  pub call_type : Text
  pub trace_type : Text

-- `sign` gives a transaction its bytes and its id.
pub record Contract : Type 0 where
  pub unmarshal_tx : List ℕ → Result Text AtomicTx
  pub unmarshal_txs : List ℕ → Result Text (List AtomicTx)
  pub sign : AtomicTx → Result Text AtomicTx
  pub marshal_unsigned : UnsignedAtomicTx → Result Text (List ℕ)
  pub unmarshal_trace : List ℕ → Result Text TraceModel
