-- ===== src/Axc/TxList.antt =====
-- services/indexes/axc/reader_aggregate_processor.go: the list of the latest transactions that a reader
-- keeps, with its two indexes. A nil slice or map is `none`.
pub mod Found
use mathlib.Core.List.{append_assoc}
use axia_network_v2_magellan.Prelude.{
  ℕ, zero, suc, ◌+◌, Bool, true, false, not, ◌&&◌, List, [], ◌∷◌, ◌++◌, Option, none, some,
  if◌then◌else◌, leb, length, take, ◌≡◌, refl, sym, ap, ◌∙◌, arith, Bool-cases, Option-cases, inl,
  inr,
}
use axia_network_v2_magellan.Prelude.Int.{ℤ, pos, negsuc}
use axia_network_v2_magellan.Prelude.Eq.{◌==◌, beq_refl}
use axia_network_v2_magellan.Prelude.Dict.{lookup, insert, lookup-insert}
use axia_network_v2_magellan.Prelude.Text.{Text, text_eq, text_beq_iff}

-- What the list reads of a transaction; `content` stands for the rest.
pub record Tx : Type 0 where
  pub id : Text
  pub chain_id : Text
  pub content : ℕ

pub record TxList : Type 0 where
  pub txs : Option (List Tx)
  pub txs_map : Option (List (Text × Tx))
  pub txs_by_chain : Option (List (Text × List Tx))

unfoldable pub is_processed : TxList → Bool
is_processed t = elim t.txs [ none ↦ false | some txs ↦ true ]

abbrev pub found_in : Text → Option (List (Text × Tx)) → Option Tx
found_in tx none = none
found_in tx (some m) = lookup tx m

unfoldable pub get : TxList → Text → Option Tx
get t tx = found_in tx t.txs_map

-- What `First` returns, or that it panics on a list with no element.
pub data FirstTx : Type 0 where
  returns : Option Tx → FirstTx
  index_panic : FirstTx

unfoldable pub first : TxList → FirstTx
first t = elim t.txs [
  | none ↦ returns none
  | some txs ↦ elim txs [ [] ↦ index_panic | tx ∷ rest ↦ returns (some tx) ]
]

abbrev pub or_empty : Option (List Tx) → List Tx
or_empty none = []
or_empty (some l) = l

-- The loop of `Set` on the two maps
unfoldable pub index_txs :
    List Tx → List (Text × Tx) → List (Text × List Tx) → List (Text × Tx) × List (Text × List Tx)
index_txs [] m by_chain = (m, by_chain)
index_txs (tx ∷ txs) m by_chain =
    index_txs txs (insert tx.id tx m)
      (insert tx.chain_id (or_empty (lookup tx.chain_id by_chain) ++ (tx ∷ [])) by_chain)

unfoldable pub set : TxList → Option (List Tx) → TxList
set t none = record { txs = none; txs_map = none; txs_by_chain = none }
set t (some txs) = record {
  txs = some txs;
  txs_map = some (index_txs txs [] []).0;
  txs_by_chain = some (index_txs txs [] []).1;
}

-- What `FindTxs` returns, or that `make` panics on a negative capacity. (`ListParams` has no negative
-- limit.)
pub data FoundTxs : Type 0 where
  found : Option (List Tx) → FoundTxs
  make_panic : FoundTxs

-- The first `limit` elements, when there are as many
abbrev pub prefix_of : ℤ → Option (List Tx) → FoundTxs
prefix_of limit none = found none
prefix_of (pos limit) (some l) =
    if leb limit (length l) then found (some (take limit l)) else found none
prefix_of (negsuc n) (some l) = make_panic

abbrev pub of_chain_in : Text → Option (List (Text × List Tx)) → Option (List Tx)
of_chain_in c none = none
of_chain_in c (some m) = lookup c m

unfoldable pub find_txs : TxList → List Text → ℤ → FoundTxs
find_txs t [] limit = prefix_of limit t.txs
find_txs t (c ∷ []) limit = prefix_of limit (of_chain_in c t.txs_by_chain)
find_txs t (c ∷ d ∷ rest) limit = found none
