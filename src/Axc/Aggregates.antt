-- ===== src/Axc/Aggregates.antt =====
-- models/collections.go and services/indexes/axc/reader.go: the records of the histograms, and what their
-- builders are given.
use axia_network_v2_magellan.Prelude.{ℕ, List}
use axia_network_v2_magellan.Prelude.Int.{ℤ}
use axia_network_v2_magellan.Prelude.Text.{Text}
use axia_network_v2_magellan.Prelude.Result.{Result}
use axia_network_v2_magellan.Params.Query.{Time}

pub data AggregateError : Type 0 where
  too_many_intervals : AggregateError
  not_a_big_int : AggregateError
  database : Text → AggregateError

pub record TxfeeAggregates : Type 0 where
  pub idx : ℕ
  pub start_time : Time
  pub end_time : Time
  pub txfee : Text

pub record TxfeeAggregatesHistogram : Type 0 where
  pub txfee_aggregates : TxfeeAggregates
  pub interval_size : ℤ
  pub intervals : List TxfeeAggregates
  pub start_time : Time
  pub end_time : Time

pub record Aggregates : Type 0 where
  pub idx : ℕ
  pub start_time : Time
  pub end_time : Time
  pub transaction_volume : Text
  pub transaction_count : ℕ
  pub address_count : ℕ
  pub output_count : ℕ
  pub asset_count : ℕ

pub record AggregatesHistogram : Type 0 where
  pub aggregates : Aggregates
  pub interval_size : ℤ
  pub intervals : List Aggregates
  pub start_time : Time
  pub end_time : Time

-- What the requests ask for; the filters stand in the query.
pub record AggregateRequest : Type 0 where
  pub start_time : Time
  pub end_time : Time
  pub interval_size : ℤ

-- What the database returns: the time of the first transaction, and the rows from a start time, in at
-- most so many intervals, or in one if there is no number. `ceil_div` is the ceiling of the quotient of
-- two durations, from the end and the start time.
pub record Source (A : Type 0) : Type 0 where
  pub first_time : Result AggregateError Time
  pub load : Time → ℕ → Result AggregateError (List A)
  pub ceil_div : Time → Time → ℤ → ℤ
