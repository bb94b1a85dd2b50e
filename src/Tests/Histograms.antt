-- ===== src/Tests/Histograms.antt =====
-- Histograms of two rows, a list of three transactions, and the sum of two sets of assets.
use axia_network_v2_magellan.Prelude.{
  sym, ℕ, ◌+◌, ◌≤◌, Bool, true, false, ltb, length, List, [], ◌∷◌, none, some, map, ◌≡◌, ◌↔◌, refl,
  arith,
}
use axia_network_v2_magellan.Prelude.Int.{pos, ◌+ℤ◌}
use axia_network_v2_magellan.Prelude.Dict.{lookup}
use axia_network_v2_magellan.Prelude.Text.{Text, codes, text_eq, text_beq}
use axia_network_v2_magellan.Axc.Aggregates.{
  TxfeeAggregates, Aggregates, AggregateRequest, Source, AggregateError, AggregatesHistogram,
}
use axia_network_v2_magellan.Axc.Histogram.{
  whole_seconds, txfee_blank, txfee_stamp, txfee_histogram, blank, stamp, histogram, aggregate,
  fill, aggregate_step, add_counts, pad_to, pad, interval_count,
}
use axia_network_v2_magellan.Axc.Histogram.Fill.{laid, shown, Ascends}
use axia_network_v2_magellan.Axc.Histogram.Totals.{sum_volumes, sum_of, answer}
use axia_network_v2_magellan.Axc.Histogram.Whole.{
  txfee_idx, idx_of, txfee_answer, answered, overall, txfee_histogram-laid, histogram-laid,
}
use axia_network_v2_magellan.Axc.TxList.{Tx, TxList, found, set, find_txs}
use axia_network_v2_magellan.Axc.TxList.Found.{of_chain, first_of_chain, first_txs, find_txs-set}
use axia_network_v2_magellan.Axc.AssetInfos.{
  AssetInfo, add_asset_infos, add_asset_info_map, both, lookup-add_asset_info_map, utxo_count_iff,
}
use axia_network_v2_magellan.Axc.Histogram.Bounds.{LoadsInOrder, aggregate-intervals}
use axia_network_v2_magellan.Tests.Setting.{noon}
use mathlib.Core.Path.{subst}
use axia_network_v2_magellan.Strconv.{big_int_set_string, digits_value}
use axia_network_v2_magellan.Params.Query.{is_zero}
use axia_network_v2_magellan.Prelude.Result.{Result, ok}

-- Intervals of ten seconds
abbrev request : AggregateRequest
request = record { start_time = noon; end_time = noon; interval_size = pos 10000000000 }

abbrev fees : List TxfeeAggregates
fees =
    (record { idx = 1; start_time = noon; end_time = noon; txfee = codes "12" })
    ∷ (record { idx = 3; start_time = noon; end_time = noon; txfee = codes "30" })
    ∷ []

txfee_histogram-laid_example :
    txfee_histogram request noon 5 fees
    ≡ answer (sum_volumes (map (λ (x : TxfeeAggregates). x.txfee) fees)) λ v.
      txfee_answer request noon 5 v (
        laid txfee_idx
          (txfee_blank noon.sec (whole_seconds (pos 10000000000)))
          (txfee_stamp noon.sec (whole_seconds (pos 10000000000)))
          0
          5
          fees)
txfee_histogram-laid_example =
    txfee_histogram-laid request noon 5 fees
      (omega arith, omega arith, (omega arith, omega arith, tt))

abbrev row : ℕ → Text → Aggregates
row i volume = record {
  idx = i;
  start_time = noon;
  end_time = noon;
  transaction_volume = volume;
  transaction_count = 2;
  address_count = 3;
  output_count = 4;
  asset_count = 1;
}

abbrev rows : List Aggregates
rows = row 0 (codes "5") ∷ row 2 (codes "8") ∷ []

histogram-laid_example :
    histogram request noon 4 rows
    ≡ answer (sum_volumes (map (λ (x : Aggregates). x.transaction_volume) rows)) λ v.
      answered request noon 4 (overall request noon 4 v rows) (
        laid idx_of
          (blank noon.sec (whole_seconds (pos 10000000000)))
          (stamp noon.sec (whole_seconds (pos 10000000000)))
          0
          4
          rows)
histogram-laid_example =
    histogram-laid request noon 4 rows (omega arith, omega arith, (omega arith, omega arith, tt))

-- The rows above, and one row of all if no intervals are asked for.
abbrev loaded : Bool → List Aggregates
loaded true = rows
loaded false = row 0 (codes "13") ∷ []

abbrev source : Source Aggregates
source = record {
  first_time = ok noon;
  load = λ start count. ok (loaded (ltb 0 count));
  ceil_div = λ finish start size. pos 4;
}

four_intervals :
    (count : ℕ)
    → interval_count (whole_seconds request.interval_size) (pos 4) ≡ ok count
    → count ≡ 4
unfolding interval_count whole_seconds
four_intervals count e = ground (arith, e)

rows_ascend :
    Ascends idx_of
      (blank noon.sec (whole_seconds request.interval_size))
      (stamp noon.sec (whole_seconds request.interval_size))
      0
      4
      rows
rows_ascend = (omega arith, omega arith, (omega arith, omega arith, tt))

abbrev ok_rows : List Aggregates → Result AggregateError (List Aggregates)
ok_rows l = ok l

same_rows : {l r : List Aggregates} → ok_rows l ≡ ok_rows r → l ≡ r
same_rows e = cc

source-LoadsInOrder : LoadsInOrder source request
source-LoadsInOrder start count got asked more e =
    let four = four_intervals count asked in
    subst
      (Ascends idx_of (blank start.sec (whole_seconds request.interval_size))
        (stamp start.sec (whole_seconds request.interval_size)) 0 count)
      (same_rows (subst (λ n. ok_rows (loaded (ltb 0 n)) ≡ ok got) four e))
      (subst
        (λ n.
          Ascends idx_of (blank start.sec (whole_seconds request.interval_size))
            (stamp start.sec (whole_seconds request.interval_size)) 0 n rows)
        (sym four) rows_ascend)

abbrev shown_rows : AggregatesHistogram
shown_rows = answered request noon 4 (overall request noon 4 (pos 13) rows) (
    laid idx_of (blank noon.sec (whole_seconds (pos 10000000000)))
      (stamp noon.sec (whole_seconds (pos 10000000000))) 0 4 rows)

aggregate_rows : aggregate source request ≡ ok shown_rows
unfolding aggregate is_zero interval_count whole_seconds histogram fill aggregate_step
    big_int_set_string digits_value add_counts ◌+ℤ◌ sum_of laid pad_to pad shown
aggregate_rows = refl

aggregate-intervals_example :
    (interval_count
        (whole_seconds request.interval_size)
        (source.ceil_div request.end_time shown_rows.start_time request.interval_size)
      ≡ ok (length shown_rows.intervals))
    × (length shown_rows.intervals ≤ 20000)
aggregate-intervals_example =
    aggregate-intervals source request shown_rows source-LoadsInOrder aggregate_rows

abbrev empty_list : TxList
empty_list = record { txs = none; txs_map = none; txs_by_chain = none }

abbrev tx : Text → Text → ℕ → Tx
tx i c n = record { id = i; chain_id = c; content = n }

abbrev three_txs : List Tx
three_txs =
    tx (codes "a") (codes "X") 1 ∷ tx (codes "b") (codes "P") 2 ∷ tx (codes "a") (codes "X") 3 ∷ []

find_txs-set_example :
    (find_txs (set empty_list (some three_txs)) (codes "X" ∷ []) (pos 2)
      ≡ first_of_chain (pos 2) (of_chain (codes "X") three_txs))
    × (find_txs (set empty_list (some three_txs)) [] (pos 2) ≡ first_txs (pos 2) three_txs)
    × (find_txs (set empty_list (some three_txs)) (codes "X" ∷ codes "P" ∷ []) (pos 2) ≡ found none)
find_txs-set_example = find_txs-set empty_list three_txs (codes "X") (codes "P") [] (pos 2)

abbrev asset : ℕ → AssetInfo
asset n = record {
  asset_id = codes "AXC";
  transaction_count = n;
  utxo_count = n;
  balance = codes "1";
  total_received = codes "2";
  total_sent = codes "1";
}

abbrev assets : List (Text × AssetInfo)
assets = (codes "AXC", asset 3) ∷ []

abbrev more_assets : List (Text × AssetInfo)
more_assets = (codes "AXC", asset 5) ∷ (codes "B", asset 1) ∷ []

lookup-add_asset_info_map_example :
    lookup (codes "AXC") (add_asset_info_map (λ s. pos 0) assets more_assets)
    ≡ both (λ s. pos 0) (lookup (codes "AXC") assets) (lookup (codes "AXC") more_assets)
unfolding lookup text_beq
lookup-add_asset_info_map_example =
    lookup-add_asset_info_map (λ s. pos 0) assets more_assets (codes "AXC") (refl, (refl, tt))

utxo_count_iff_example :
    ((add_asset_infos (λ s. pos 0) (asset 3) (asset 5)).utxo_count ≡ 3 + 5) ↔ (◌≡◌ {A = ℕ} 3 5)
utxo_count_iff_example = utxo_count_iff (λ s. pos 0) (asset 3) (asset 5) (omega arith)
