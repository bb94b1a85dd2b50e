-- ===== src/Axc/TxList/Found.antt =====
-- What `Set` of services/indexes/axc/reader_aggregate_processor.go makes `Get` and `FindTxs` return.
use mathlib.Core.List.{append_assoc, append-nil}
use axia_network_v2_magellan.Prelude.{
  List, [], ◌∷◌, ◌++◌, Option, none, some, if◌then◌else◌, length, ltb, take, ◌≡◌, refl, sym, ap,
  ◌∙◌, arith,
}
use axia_network_v2_magellan.Prelude.Int.{ℤ, pos, negsuc}
use axia_network_v2_magellan.Prelude.Eq.{◌==◌}
use axia_network_v2_magellan.Prelude.Dict.{lookup, insert, lookup-insert}
use axia_network_v2_magellan.Prelude.Text.{Text, text_eq, text_beq_iff}
use axia_network_v2_magellan.Axc.TxList.{
  FoundTxs, Tx, TxList, found, get, make_panic, set, find_txs, index_txs, or_empty, prefix_of,
}

-- The transactions of a chain, and the last one with an id.
unfoldable pub of_chain : Text → List Tx → List Tx
of_chain c [] = []
of_chain c (tx ∷ txs) = if tx.chain_id == c then tx ∷ of_chain c txs else of_chain c txs

unfoldable pub last_of : Text → List Tx → Option Tx
last_of i [] = none
last_of i (tx ∷ txs) = elim (last_of i txs) [
  | some u ↦ some u
  | none ↦ if tx.id == i then some tx else none
]

abbrev later : Option Tx → Option Tx → Option Tx
later none old = old
later (some tx) old = some tx

later-none : (o : Option Tx) → later o none ≡ o
later-none none = refl
later-none (some tx) = refl

lookup-index_txs :
    (i : Text) (txs : List Tx) (m : List (Text × Tx)) (by_chain : List (Text × List Tx))
    → lookup i (index_txs txs m by_chain).0 ≡ later (last_of i txs) (lookup i m)
unfolding index_txs last_of
lookup-index_txs i [] m by_chain = refl
lookup-index_txs i (tx ∷ txs) m by_chain = ground (
  arith,
  lookup-index_txs i txs (insert tx.id tx m)
      (insert tx.chain_id (or_empty (lookup tx.chain_id by_chain) ++ (tx ∷ [])) by_chain),
  lookup-insert tx.id i tx m,
)

-- The transactions of a chain that a map has, and more of them.
abbrev joined : Option (List Tx) → List Tx → Option (List Tx)
joined none [] = none
joined none (tx ∷ txs) = some (tx ∷ txs)
joined (some l) txs = some (l ++ txs)

joined-append :
    (o : Option (List Tx)) (tx : Tx) (txs : List Tx)
    → some ((or_empty o ++ (tx ∷ [])) ++ txs) ≡ joined o (tx ∷ txs)
joined-append none tx txs = refl
joined-append (some l) tx txs = ap some (append_assoc l (tx ∷ []) txs)

joined-nil : (o : Option (List Tx)) → o ≡ joined o []
joined-nil none = refl
joined-nil (some l) = ap some (sym (append-nil l))

of_chain-index_txs :
    (c : Text) (txs : List Tx) (m : List (Text × Tx)) (by_chain : List (Text × List Tx))
    → lookup c (index_txs txs m by_chain).1 ≡ joined (lookup c by_chain) (of_chain c txs)
unfolding index_txs of_chain
of_chain-index_txs c [] m by_chain = joined-nil (lookup c by_chain)
of_chain-index_txs c (tx ∷ txs) m by_chain = ground (
  arith,
  of_chain-index_txs c txs (insert tx.id tx m)
      (insert tx.chain_id (or_empty (lookup tx.chain_id by_chain) ++ (tx ∷ [])) by_chain),
  lookup-insert tx.chain_id c (or_empty (lookup tx.chain_id by_chain) ++ (tx ∷ [])) by_chain,
  joined-append (lookup c by_chain) tx (of_chain c txs),
  text_beq_iff tx.chain_id c,
)

-- A list that has no element is not in the map.
abbrev if_any : List Tx → Option (List Tx)
if_any [] = none
if_any (tx ∷ txs) = some (tx ∷ txs)

joined-none : (txs : List Tx) → joined none txs ≡ if_any txs
joined-none [] = refl
joined-none (tx ∷ txs) = refl

-- After `Set`, whatever the list held before: `Get` returns the last of the new transactions with the
-- id, and nothing if there is none or the list was cleared.
get-set :
    (t : TxList) (txs : List Tx) (i : Text)
    → (get (set t (some txs)) i ≡ last_of i txs) × (get (set t none) i ≡ none)
unfolding get set lookup last_of
get-set t txs i = (lookup-index_txs i txs [] [] ∙ later-none (last_of i txs), refl)

-- The first `limit` of a list, and no list if it has fewer
abbrev pub first_txs : ℤ → List Tx → FoundTxs
first_txs (pos limit) l = found (if ltb (length l) limit then none else some (take limit l))
first_txs (negsuc n) l = make_panic

-- The same of the transactions of a chain, which has no list if it has none
abbrev pub first_of_chain : ℤ → List Tx → FoundTxs
first_of_chain limit [] = found none
first_of_chain limit (tx ∷ txs) = first_txs limit (tx ∷ txs)

prefix_of-first_txs : (limit : ℤ) (l : List Tx) → prefix_of limit (some l) ≡ first_txs limit l
prefix_of-first_txs (pos limit) l = ground arith
prefix_of-first_txs (negsuc n) l = refl

prefix_of-first_of_chain :
    (limit : ℤ) (l : List Tx) → prefix_of limit (if_any l) ≡ first_of_chain limit l
prefix_of-first_of_chain limit [] = refl
prefix_of-first_of_chain limit (tx ∷ txs) = prefix_of-first_txs limit (tx ∷ txs)

-- After `Set`, whatever the list held before: `FindTxs` of one chain returns the first `limit` of the
-- chain's transactions in their order, and no list at all if the chain has fewer than `limit` or none;
-- of no chain, the first `limit` of all, and no list if there are fewer; and of several chains, no list.
-- A negative limit makes it panic, where there is a list to take from.
pub find_txs-set :
    (t : TxList) (txs : List Tx) (c d : Text) (more : List Text) (limit : ℤ)
    → (find_txs (set t (some txs)) (c ∷ []) limit ≡ first_of_chain limit (of_chain c txs))
      × (find_txs (set t (some txs)) [] limit ≡ first_txs limit txs)
      × (find_txs (set t (some txs)) (c ∷ d ∷ more) limit ≡ found none)
unfolding find_txs set lookup
find_txs-set t txs c d more limit = (
  ap (prefix_of limit) (of_chain-index_txs c txs [] [] ∙ joined-none (of_chain c txs))
      ∙ prefix_of-first_of_chain limit (of_chain c txs),
  prefix_of-first_txs limit txs,
  refl,
)
