-- ===== src/Axc/Histogram/Whole.antt =====
-- The whole histograms of services/indexes/axc/reader.go, for rows in ascending order.
use axia_network_v2_magellan.Prelude.{
  ℕ, ◌+◌, ◌-◌, ◌%◌, ◌^◌, List, [], Option, none, some, map, ◌≡◌, refl, ap, ap₂, ◌∙◌, arith,
}
use axia_network_v2_magellan.Prelude.Int.{ℤ, pos, ◌+ℤ◌}
use axia_network_v2_magellan.Prelude.Result.{ok, ◌>>=◌}
use axia_network_v2_magellan.Params.Query.{Time}
use axia_network_v2_magellan.Axc.Aggregates.{
  TxfeeAggregates, TxfeeAggregatesHistogram, Aggregates, AggregatesHistogram, AggregateRequest,
}
use axia_network_v2_magellan.Axc.Histogram.{
  whole_seconds, big_string, pad_to, txfee_blank, txfee_stamp, txfee_step, txfee_histogram, blank,
  stamp, aggregate_step, zero_aggregates, histogram,
}
use axia_network_v2_magellan.Axc.Histogram.Fill.{
  Ascends, laid, place, pad_to-place, fill-totals, with_row,
}
use axia_network_v2_magellan.Axc.Histogram.Totals.{
  sum_volumes, answer, zero-+ℤ, txfee_add, txfee_steps, txfee_totals-sum, aggregate_add,
  aggregate_steps, aggregate_totals-sum, counted, counted-sum_of, sum_of, with_counts,
}

finish :
    {T B C : Type 0} (o : Option ℤ) (f : ℤ → T) (b : B) (g : T × B → C) (h : ℤ → C)
    → ((v : ℤ) → g (f v, b) ≡ h v)
    → ((answer o f >>= with_row b) >>= λ r. ok (g r)) ≡ answer o h
finish none f b g h e = refl
finish (some v) f b g h e = ap ok (e v)

abbrev pub txfee_idx : TxfeeAggregates → ℕ
txfee_idx a = a.idx

abbrev pub idx_of : Aggregates → ℕ
idx_of a = a.idx

whole-laid :
    {A : Type 0} (idx : A → ℕ) (mk : ℕ → A) (mark : A → A) (count : ℕ) (xs : List A)
    → Ascends idx mk mark 0 count xs
    → pad_to mk (place idx mk mark [] xs) count ≡ laid idx mk mark 0 count xs
whole-laid idx mk mark count xs a =
    let e : count - 0 ≡ count = omega arith in
    pad_to-place idx mk mark xs [] 0 count refl (omega arith) a
    ∙ ap (λ (n : ℕ). laid idx mk mark 0 n xs) e

zero_plus : (n : ℕ) → 0 + n ≡ n
zero_plus n = omega arith

module _ (p : AggregateRequest) (start : Time) (count : ℕ) where
  abbrev seconds : ℤ
  seconds = whole_seconds p.interval_size

  abbrev pub txfee_answer : ℤ → List TxfeeAggregates → TxfeeAggregatesHistogram
  txfee_answer v intervals = record {
    txfee_aggregates = record {
      idx = 0;
      start_time = start;
      end_time = p.end_time;
      txfee = big_string v;
    };
    interval_size = p.interval_size;
    intervals = intervals;
    start_time = start;
    end_time = p.end_time;
  }

  -- When the rows are in ascending order of their intervals, all of them below the requested number,
  -- the fee histogram fails exactly if the fee of a row is not a decimal text. Otherwise it has the sum
  -- of the fees, and as many intervals as were requested: at each place the row of that interval, or
  -- one with no fee, and with the interval's own times.
  pub txfee_histogram-laid :
      (intervals : List TxfeeAggregates)
      → Ascends txfee_idx
          (txfee_blank start.sec (whole_seconds p.interval_size))
          (txfee_stamp start.sec (whole_seconds p.interval_size))
          0
          count
          intervals
      → txfee_histogram p start count intervals
        ≡ answer (sum_volumes (map (λ (x : TxfeeAggregates). x.txfee) intervals)) λ v.
          txfee_answer v (
            laid txfee_idx
              (txfee_blank start.sec (whole_seconds p.interval_size))
              (txfee_stamp start.sec (whole_seconds p.interval_size))
              0
              count
              intervals)
  unfolding txfee_histogram
  txfee_histogram-laid intervals a =
      let mk : ℕ → TxfeeAggregates = txfee_blank start.sec seconds in
      let mark : TxfeeAggregates → TxfeeAggregates = txfee_stamp start.sec seconds in
      rw
        (
          fill-totals txfee_idx mk mark (txfee_add start.sec seconds) (txfee_step start.sec seconds)
              (txfee_steps start.sec seconds) intervals (pos 0) [],
          txfee_totals-sum start.sec seconds intervals (pos 0),
        )
        (finish (sum_volumes (map (λ (x : TxfeeAggregates). x.txfee) intervals)) (λ v. pos 0 +ℤ v)
          (place txfee_idx mk mark [] intervals) (λ r. txfee_answer r.0 (pad_to mk r.1 count))
          (λ v. txfee_answer v (laid txfee_idx mk mark 0 count intervals))
          (λ v. ap₂ txfee_answer (zero-+ℤ v) (whole-laid txfee_idx mk mark count intervals a)))

  -- The overall figures of rows: the times of the request, the given volume, and the sum of each count.
  abbrev pub overall : ℤ → List Aggregates → Aggregates
  overall v rows = record {
    idx = 0;
    start_time = start;
    end_time = p.end_time;
    transaction_volume = big_string v;
    transaction_count = sum_of (λ x. x.transaction_count) rows % 2 ^ 64;
    address_count = sum_of (λ x. x.address_count) rows % 2 ^ 64;
    output_count = sum_of (λ x. x.output_count) rows % 2 ^ 64;
    asset_count = sum_of (λ x. x.asset_count) rows % 2 ^ 64;
  }

  abbrev pub answered : Aggregates → List Aggregates → AggregatesHistogram
  answered all intervals = record {
    aggregates = all;
    interval_size = p.interval_size;
    intervals = intervals;
    start_time = start;
    end_time = p.end_time;
  }

  abbrev overall_counts : List Aggregates → Aggregates
  overall_counts rows =
      with_counts (zero_aggregates start p.end_time)
        (sum_of (λ x. x.transaction_count) rows % 2 ^ 64)
        (sum_of (λ x. x.output_count) rows % 2 ^ 64) (sum_of (λ x. x.address_count) rows % 2 ^ 64)
        (sum_of (λ x. x.asset_count) rows % 2 ^ 64)

  -- When the rows are in ascending order of their intervals, all of them below the requested number,
  -- the histogram fails exactly if the volume of a row is not a decimal text. Otherwise its overall
  -- figures are the sums over the rows, the counts modulo 2^64, and it has as many intervals as were
  -- requested: at each place the row of that interval, or an empty one, with the interval's own times.
  pub histogram-laid :
      (intervals : List Aggregates)
      → Ascends idx_of
          (blank start.sec (whole_seconds p.interval_size))
          (stamp start.sec (whole_seconds p.interval_size))
          0
          count
          intervals
      → histogram p start count intervals
        ≡ answer (sum_volumes (map (λ (x : Aggregates). x.transaction_volume) intervals)) λ v.
          answered (overall v intervals) (
            laid idx_of
              (blank start.sec (whole_seconds p.interval_size))
              (stamp start.sec (whole_seconds p.interval_size))
              0
              count
              intervals)
  unfolding histogram
  histogram-laid intervals a =
      let mk : ℕ → Aggregates = blank start.sec seconds in
      let mark : Aggregates → Aggregates = stamp start.sec seconds in
      let zero : Aggregates = zero_aggregates start p.end_time in
      let sums : counted zero intervals ≡ overall_counts intervals =
        counted-sum_of intervals zero (omega arith) (omega arith) (omega arith) (omega arith)
        ∙ rw
            (
              zero_plus (sum_of (λ x. x.transaction_count) intervals),
              zero_plus (sum_of (λ x. x.output_count) intervals),
              zero_plus (sum_of (λ x. x.address_count) intervals),
              zero_plus (sum_of (λ x. x.asset_count) intervals),
            )
            refl in
      rw
        (
          fill-totals idx_of mk mark (aggregate_add start.sec seconds)
              (aggregate_step start.sec seconds) (aggregate_steps start.sec seconds) intervals
              (pos 0, zero) [],
          aggregate_totals-sum start.sec seconds intervals (pos 0) zero,
        )
        (finish (sum_volumes (map (λ (x : Aggregates). x.transaction_volume) intervals))
          (λ v. (pos 0 +ℤ v, counted zero intervals)) (place idx_of mk mark [] intervals)
          (λ r.
            answered (record r.0.1 { transaction_volume = big_string r.0.0 }) (pad_to mk r.1 count))
          (λ v. answered (overall v intervals) (laid idx_of mk mark 0 count intervals))
          (λ v.
            ap₂ answered
              (ap₂ (λ (n : ℤ) (t : Aggregates). record t { transaction_volume = big_string n })
                (zero-+ℤ v) sums)
              (whole-laid idx_of mk mark count intervals a)))
