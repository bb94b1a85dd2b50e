-- ===== src/Axc/Histogram.antt =====
-- services/indexes/axc/reader.go: the histograms of Aggregate and TxfeeAggregate, and their records in
-- models/collections.go. The rows that the query loads, and the number of intervals, which the source
-- computes in floating point, are parameters.
pub mod Fill
pub mod Totals
pub mod Whole
pub mod Bounds
use axia_network_v2_magellan.Prelude.{
  ℕ, zero, suc, ◌+◌, ◌-◌, ◌*◌, ◌/◌, ◌%◌, ◌^◌, Bool, true, false, List, [], ◌∷◌, ◌++◌, Option, none,
  some, if◌then◌else◌, ltb, length, nat_beq,
}
use axia_network_v2_magellan.Prelude.Int.{ℤ, pos, negsuc, pos_part, neg_part, sub_ℕ, ◌+ℤ◌, ltb_ℤ}
use axia_network_v2_magellan.Prelude.Text.{Text, codes}
use axia_network_v2_magellan.Prelude.Result.{Result, ok, err, ◌>>=◌}
use axia_network_v2_magellan.Strconv.{digits, big_int_set_string}
use axia_network_v2_magellan.Params.Query.{Time, is_zero, int_beq}
use axia_network_v2_magellan.Axc.Aggregates.{
  AggregateError, AggregateRequest, Aggregates, AggregatesHistogram, Source, TxfeeAggregates,
  TxfeeAggregatesHistogram, database, not_a_big_int, too_many_intervals,
}

-- `n * z`
unfoldable pub scale : ℕ → ℤ → ℤ
scale n z = sub_ℕ (n * pos_part z) (n * neg_part z)

-- `int64(d.Seconds())` of a duration in nanoseconds, which drops the fraction
unfoldable pub whole_seconds : ℤ → ℤ
whole_seconds d = sub_ℕ (pos_part d / 10 ^ 9) (neg_part d / 10 ^ 9)

-- `String` of a `big.Int`
unfoldable pub big_string : ℤ → Text
big_string (pos n) = digits (suc n) n
big_string (negsuc n) = b'-' ∷ digits (suc (suc n)) (suc n)

-- `timesForInterval`: the first and the last second of an interval
unfoldable pub start_of : ℤ → ℤ → ℕ → Time
start_of start seconds idx = record { sec = start +ℤ scale idx seconds; nsec = 0 }

unfoldable pub end_of : ℤ → ℤ → ℕ → Time
end_of start seconds idx = record {
  sec = start +ℤ scale idx seconds +ℤ seconds +ℤ negsuc 0;
  nsec = 0;
}

-- `padTo`, by the number of intervals that are missing
unfoldable pub pad : {A : Type 0} → (ℕ → A) → ℕ → List A → List A
pad blank zero slice = slice
pad blank (suc n) slice = pad blank n (slice ++ (blank (length slice) ∷ []))

unfoldable pub pad_to : {A : Type 0} → (ℕ → A) → List A → ℕ → List A
pad_to blank slice to = pad blank (to - length slice) slice

-- The loop over the rows, for either record: `step` adds a row to the totals and stamps it with its
-- times, or fails.
unfoldable pub fill :
    {A T : Type 0}
    → (A → ℕ)
    → (ℕ → A)
    → (T → A → Result AggregateError (T × A))
    → List A
    → T × List A
    → Result AggregateError (T × List A)
fill idx blank step [] (totals, slice) = ok (totals, slice)
fill idx blank step (interval ∷ intervals) (totals, slice) = step totals interval >>= λ r.
    fill idx blank step intervals (r.0, pad_to blank slice (idx interval) ++ (r.1 ∷ []))

abbrev pub volume_of : Option ℤ → Result AggregateError ℤ
volume_of none = err not_a_big_int
volume_of (some v) = ok v

abbrev pub parsed_volume : Text → Result AggregateError ℤ
parsed_volume s = volume_of (big_int_set_string s)

abbrev pub max_aggregate_interval_count : ℕ
max_aggregate_interval_count = 20000

-- The number of intervals, 0 if there is no interval size
unfoldable pub interval_count : ℤ → ℤ → Result AggregateError ℕ
interval_count seconds count =
    if int_beq seconds (pos 0)
    then ok 0
    else if ltb_ℤ (pos max_aggregate_interval_count) count
    then err too_many_intervals
    else if ltb_ℤ count (pos 1)
    then ok 1
    else ok (pos_part count)

abbrev pub start_or_first : Time → Result AggregateError Time → Result AggregateError Time
start_or_first start first = if is_zero start then first else ok start

abbrev pub no_time : Time
no_time = record { sec = negsuc 62135596799; nsec = 0 }

abbrev pub txfee_blank : ℤ → ℤ → ℕ → TxfeeAggregates
txfee_blank start seconds i = record {
  idx = i;
  start_time = start_of start seconds i;
  end_time = end_of start seconds i;
  txfee = [];
}

abbrev pub txfee_stamp : ℤ → ℤ → TxfeeAggregates → TxfeeAggregates
txfee_stamp start seconds interval = record interval {
  start_time = start_of start seconds interval.idx;
  end_time = end_of start seconds interval.idx;
}

unfoldable pub txfee_step :
    ℤ → ℤ → ℤ → TxfeeAggregates → Result AggregateError (ℤ × TxfeeAggregates)
txfee_step start seconds total interval =
    parsed_volume interval.txfee >>= λ v. ok (total +ℤ v, txfee_stamp start seconds interval)

-- With no interval size: the only row, or a zero one
abbrev pub txfee_single : Time → Time → List TxfeeAggregates → TxfeeAggregatesHistogram
txfee_single start finish [] = record {
  txfee_aggregates = record { idx = 0; start_time = no_time; end_time = no_time; txfee = [] };
  interval_size = pos 0;
  intervals = [];
  start_time = start;
  end_time = finish;
}
txfee_single start finish (interval ∷ intervals) = record {
  txfee_aggregates = record interval { start_time = start; end_time = finish };
  interval_size = pos 0;
  intervals = [];
  start_time = start;
  end_time = finish;
}

unfoldable pub txfee_histogram :
    AggregateRequest
    → Time
    → ℕ
    → List TxfeeAggregates
    → Result AggregateError TxfeeAggregatesHistogram
txfee_histogram p start count intervals =
    let seconds = whole_seconds p.interval_size in
    let blank = txfee_blank start.sec seconds in
    fill (λ (a : TxfeeAggregates). a.idx) blank (txfee_step start.sec seconds) intervals (pos 0, [])
    >>= λ r. ok (record {
      txfee_aggregates = record {
        idx = 0;
        start_time = start;
        end_time = p.end_time;
        txfee = big_string r.0;
      };
      interval_size = p.interval_size;
      intervals = pad_to blank r.1 count;
      start_time = start;
      end_time = p.end_time;
    })

unfoldable pub txfee_aggregate :
    Source TxfeeAggregates → AggregateRequest → Result AggregateError TxfeeAggregatesHistogram
txfee_aggregate source p = start_or_first p.start_time source.first_time >>= λ start.
    interval_count (whole_seconds p.interval_size)
      (source.ceil_div p.end_time start p.interval_size)
    >>= λ count. source.load start count >>= λ intervals.
        if nat_beq count 0
        then ok (txfee_single start p.end_time intervals)
        else txfee_histogram p start count intervals

abbrev pub blank : ℤ → ℤ → ℕ → Aggregates
blank start seconds i = record {
  idx = i;
  start_time = start_of start seconds i;
  end_time = end_of start seconds i;
  transaction_volume = [];
  transaction_count = 0;
  address_count = 0;
  output_count = 0;
  asset_count = 0;
}

abbrev pub stamp : ℤ → ℤ → Aggregates → Aggregates
stamp start seconds interval = record interval {
  start_time = start_of start seconds interval.idx;
  end_time = end_of start seconds interval.idx;
}

-- The counts are unsigned integers of 64 bits.
unfoldable pub add_counts : Aggregates → Aggregates → Aggregates
add_counts totals interval = record totals {
  transaction_count = (totals.transaction_count + interval.transaction_count) % 2 ^ 64;
  output_count = (totals.output_count + interval.output_count) % 2 ^ 64;
  address_count = (totals.address_count + interval.address_count) % 2 ^ 64;
  asset_count = (totals.asset_count + interval.asset_count) % 2 ^ 64;
}

unfoldable pub aggregate_step :
    ℤ → ℤ → ℤ × Aggregates → Aggregates → Result AggregateError ((ℤ × Aggregates) × Aggregates)
aggregate_step start seconds totals interval = parsed_volume interval.transaction_volume >>= λ v.
    ok ((totals.0 +ℤ v, add_counts totals.1 interval), stamp start seconds interval)

abbrev pub zero_aggregates : Time → Time → Aggregates
zero_aggregates start finish = record {
  idx = 0;
  start_time = start;
  end_time = finish;
  transaction_volume = [];
  transaction_count = 0;
  address_count = 0;
  output_count = 0;
  asset_count = 0;
}

abbrev pub single : Time → Time → List Aggregates → AggregatesHistogram
single start finish [] = record {
  aggregates = zero_aggregates no_time no_time;
  interval_size = pos 0;
  intervals = [];
  start_time = start;
  end_time = finish;
}
single start finish (interval ∷ intervals) = record {
  aggregates = record interval { start_time = start; end_time = finish };
  interval_size = pos 0;
  intervals = [];
  start_time = start;
  end_time = finish;
}

unfoldable pub histogram :
    AggregateRequest → Time → ℕ → List Aggregates → Result AggregateError AggregatesHistogram
histogram p start count intervals =
    let seconds = whole_seconds p.interval_size in
    fill (λ (a : Aggregates). a.idx) (blank start.sec seconds) (aggregate_step start.sec seconds)
      intervals ((pos 0, zero_aggregates start p.end_time), [])
    >>= λ r. ok (record {
      aggregates = record r.0.1 { transaction_volume = big_string r.0.0 };
      interval_size = p.interval_size;
      intervals = pad_to (blank start.sec seconds) r.1 count;
      start_time = start;
      end_time = p.end_time;
    })

unfoldable pub aggregate :
    Source Aggregates → AggregateRequest → Result AggregateError AggregatesHistogram
aggregate source p = start_or_first p.start_time source.first_time >>= λ start.
    interval_count (whole_seconds p.interval_size)
      (source.ceil_div p.end_time start p.interval_size)
    >>= λ count. source.load start count >>= λ intervals.
        if nat_beq count 0
        then ok (single start p.end_time intervals)
        else histogram p start count intervals
