-- ===== src/Axc/AssetInfos.antt =====
-- services/indexes/axc/reader_util.go: adding the figures of two sets of assets.
use mathlib.Core.Path.{subst}
use axia_network_v2_magellan.Prelude.{
  ℕ, ◌+◌, ◌%◌, ◌^◌, ◌<◌, ◌↔◌, List, [], ◌∷◌, Option, none, some, ◌≡◌, refl, sym, ap, ◌∙◌, arith,
  Bool-cases, inl, inr,
}
use axia_network_v2_magellan.Prelude.Int.{ℤ, ◌+ℤ◌}
use axia_network_v2_magellan.Prelude.Dict.{lookup, insert, lookup-insert, IsMap}
use axia_network_v2_magellan.Prelude.Text.{Text, text_eq, text_beq, text_beq_iff}
use axia_network_v2_magellan.Strconv.{big_int_set_string}
use axia_network_v2_magellan.Axc.Histogram.{big_string}

pub record AssetInfo : Type 0 where
  pub asset_id : Text
  pub transaction_count : ℕ
  pub utxo_count : ℕ
  pub balance : Text
  pub total_received : Text
  pub total_sent : Text

-- The value that `SetString` leaves in a number after a failure is undefined, and a parameter.
abbrev pub set_string : (Text → ℤ) → Text → Option ℤ → ℤ
set_string undefined s none = undefined s
set_string undefined s (some v) = v

unfoldable pub add_strings : (Text → ℤ) → Text → Text → Text
add_strings undefined t f =
    big_string (
      set_string undefined t (big_int_set_string t)
      +ℤ set_string undefined f (big_int_set_string f))

-- The second count is added to itself.
unfoldable pub add_asset_infos : (Text → ℤ) → AssetInfo → AssetInfo → AssetInfo
add_asset_infos undefined t f = record t {
  transaction_count = (t.transaction_count + f.transaction_count) % 2 ^ 64;
  utxo_count = (t.utxo_count + t.utxo_count) % 2 ^ 64;
  balance = add_strings undefined t.balance f.balance;
  total_received = add_strings undefined t.total_received f.total_received;
  total_sent = add_strings undefined t.total_sent f.total_sent;
}

abbrev pub merged : (Text → ℤ) → Option AssetInfo → AssetInfo → AssetInfo
merged undefined none v = v
merged undefined (some t) v = add_asset_infos undefined t v

unfoldable pub add_asset_info_map :
    (Text → ℤ) → List (Text × AssetInfo) → List (Text × AssetInfo) → List (Text × AssetInfo)
add_asset_info_map undefined assets [] = assets
add_asset_info_map undefined assets ((k, v) ∷ assets2) =
    add_asset_info_map undefined (insert k (merged undefined (lookup k assets) v) assets) assets2

-- The number of a decimal text
abbrev number : (Text → ℤ) → Text → ℤ
number undefined s = elim (big_int_set_string s) [ none ↦ undefined s | some v ↦ v ]

-- What the sum has of an asset that either, both or none of the sets has.
abbrev pub both : (Text → ℤ) → Option AssetInfo → Option AssetInfo → Option AssetInfo
both undefined o none = o
both undefined none (some f) = some f
both undefined (some t) (some f) = some (record {
  asset_id = t.asset_id;
  transaction_count = (t.transaction_count + f.transaction_count) % 2 ^ 64;
  utxo_count = (t.utxo_count + t.utxo_count) % 2 ^ 64;
  balance = big_string (number undefined t.balance +ℤ number undefined f.balance);
  total_received =
      big_string (number undefined t.total_received +ℤ number undefined f.total_received);
  total_sent = big_string (number undefined t.total_sent +ℤ number undefined f.total_sent);
})

set_string-number :
    (undefined : Text → ℤ) (s : Text)
    → set_string undefined s (big_int_set_string s) ≡ number undefined s
set_string-number undefined s = ground arith

both-merged :
    (undefined : Text → ℤ) (o : Option AssetInfo) (f : AssetInfo)
    → both undefined o (some f) ≡ some (merged undefined o f)
unfolding add_asset_infos add_strings
both-merged undefined none f = refl
both-merged undefined (some t) f =
    rw
      (
        set_string-number undefined t.balance,
        set_string-number undefined f.balance,
        set_string-number undefined t.total_received,
        set_string-number undefined f.total_received,
        set_string-number undefined t.total_sent,
        set_string-number undefined f.total_sent,
      )
      refl

-- Whatever order the second set, which has one entry for a key, is gone through: an asset of one of the
-- sets only is in the sum as it was there, one of both has the sums of their
-- transactions, of 64 bits, balances and totals (the number of a text that is not decimal is undefined)
-- and twice the first one's count of unspent outputs, and no other asset is in the sum.
pub lookup-add_asset_info_map :
    (undefined : Text → ℤ) (assets assets2 : List (Text × AssetInfo)) (k : Text)
    → IsMap assets2
    → lookup k (add_asset_info_map undefined assets assets2)
      ≡ both undefined (lookup k assets) (lookup k assets2)
unfolding add_asset_info_map lookup
lookup-add_asset_info_map undefined assets [] k h = refl
lookup-add_asset_info_map undefined assets ((j, v) ∷ assets2) k h =
    lookup-add_asset_info_map undefined (insert j (merged undefined (lookup j assets) v) assets)
      assets2 k h.1
    ∙ ap (λ (o : Option AssetInfo). both undefined o (lookup k assets2))
        (lookup-insert j k (merged undefined (lookup j assets) v) assets)
    ∙ elim (Bool-cases (text_beq j k)) [
      | inl e ↦
          let p : j ≡ k = (text_beq_iff j k).0 e in
          let q : lookup k assets2 ≡ none = subst (λ (i : Text). lookup i assets2 ≡ none) p h.0 in
          rw (e, q)
            (ap (λ (i : Text). some (merged undefined (lookup i assets) v)) p
              ∙ sym (both-merged undefined (lookup k assets) v))
      | inr e ↦ rw e refl
    ]

-- As long as the counts have 64 bits, the count of unspent outputs of an asset that both sets have is
-- the sum of theirs exactly if the two are equal: the second set's count is not read.
pub utxo_count_iff :
    (undefined : Text → ℤ) (t f : AssetInfo)
    → t.utxo_count + t.utxo_count < 2 ^ 64
    → ((add_asset_infos undefined t f).utxo_count ≡ t.utxo_count + f.utxo_count)
      ↔ (t.utxo_count ≡ f.utxo_count)
unfolding add_asset_infos
utxo_count_iff undefined t f h = (λ e. omega arith, λ e. omega arith)
