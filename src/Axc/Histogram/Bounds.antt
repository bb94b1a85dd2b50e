-- ===== src/Axc/Histogram/Bounds.antt =====
-- How many intervals a response of Aggregate has.
use axia_network_v2_magellan.Prelude.{
  ℕ, ◌≤◌, ◌<◌, ◌≡◌, refl, sym, ap, ◌∙◌, true, false, Bool, List, [], ◌∷◌, length, map, arith,
  Option, none, some, nat_beq, if◌then◌else◌,
}
use axia_network_v2_magellan.Prelude.Int.{ℤ}
use axia_network_v2_magellan.Prelude.Result.{Result, ok, >>=-eq-ok}
use axia_network_v2_magellan.Params.Query.{Time}
use axia_network_v2_magellan.Axc.Aggregates.{
  AggregateError, AggregateRequest, Aggregates, AggregatesHistogram, Source,
}
use axia_network_v2_magellan.Axc.Histogram.{
  aggregate, blank, histogram, interval_count, max_aggregate_interval_count, single, stamp,
  start_or_first, whole_seconds,
}
use axia_network_v2_magellan.Axc.Histogram.Fill.{Ascends, laid, length-laid}
use axia_network_v2_magellan.Axc.Histogram.Totals.{answer, sum_volumes}
use axia_network_v2_magellan.Axc.Histogram.Whole.{idx_of, overall, answered, histogram-laid}

abbrev the_ok : {A : Type 0} → A → Result AggregateError A
the_ok a = ok a

ok-inj : {A : Type 0} {a b : A} → the_ok a ≡ the_ok b → a ≡ b
ok-inj e = cc

interval_count-bounded :
    (seconds count : ℤ) (n : ℕ)
    → interval_count seconds count ≡ ok n
    → n ≤ max_aggregate_interval_count
unfolding interval_count
interval_count-bounded seconds count n e = ground (arith, e)

-- The rows that the database loads for a start, and for the number of intervals that follows from it, if
-- this is not 0, are in ascending order of their intervals, below the number. Without intervals, nothing
-- is asked of the one row that it loads.
abbrev pub LoadsInOrder : Source Aggregates → AggregateRequest → Type 0
LoadsInOrder source p =
    (start : Time) (count : ℕ) (rows : List Aggregates)
    → interval_count (whole_seconds p.interval_size)
        (source.ceil_div p.end_time start p.interval_size)
      ≡ ok count
    → 0 < count
    → source.load start count ≡ ok rows
    → Ascends idx_of (blank start.sec (whole_seconds p.interval_size))
        (stamp start.sec (whole_seconds p.interval_size)) 0 count rows

-- A histogram that begins at `start` and has `count` intervals
abbrev Shows : Time → ℕ → AggregatesHistogram → Type 0
Shows start count a = (a.start_time ≡ start) × (length a.intervals ≡ count)

answer-Shows :
    (p : AggregateRequest) (start : Time) (count : ℕ) (v : Option ℤ) (all : ℤ → Aggregates)
    (intervals : List Aggregates) (a : AggregatesHistogram)
    → length intervals ≡ count
    → answer v (λ t. answered p start count (all t) intervals) ≡ ok a
    → Shows start count a
answer-Shows p start count none all intervals a h e = cc
answer-Shows p start count (some t) all intervals a h e =
    let same : answered p start count (all t) intervals ≡ a = ok-inj e in
    (
      sym (ap (λ (x : AggregatesHistogram). x.start_time) same),
      sym (ap (λ (x : AggregatesHistogram). length x.intervals) same) ∙ h,
    )

single-Shows :
    (start finish : Time) (rows : List Aggregates) → Shows start 0 (single start finish rows)
single-Shows start finish [] = (refl, refl)
single-Shows start finish (r ∷ rows) = (refl, refl)

chosen-Shows :
    (p : AggregateRequest) (start : Time) (count : ℕ) (rows : List Aggregates) (none_asked : Bool)
    (a : AggregatesHistogram)
    → nat_beq count 0 ≡ none_asked
    → (0 < count
        → Ascends idx_of
            (blank start.sec (whole_seconds p.interval_size))
            (stamp start.sec (whole_seconds p.interval_size))
            0
            count
            rows)
    → (if none_asked then ok (single start p.end_time rows) else histogram p start count rows)
      ≡ ok a
    → Shows start count a
chosen-Shows p start count rows true a zero_count h e =
    let is_zero : count ≡ 0 = ground (arith, zero_count) in
    let same : single start p.end_time rows ≡ a = ok-inj e in
    let shown = single-Shows start p.end_time rows in
    (
      sym (ap (λ (x : AggregatesHistogram). x.start_time) same) ∙ shown.0,
      sym (ap (λ (x : AggregatesHistogram). length x.intervals) same) ∙ shown.1 ∙ sym is_zero,
    )
chosen-Shows p start count rows false a some_count h e =
    answer-Shows p start count (sum_volumes (map (λ (x : Aggregates). x.transaction_volume) rows))
      (λ v. overall p start count v rows)
      (laid idx_of (blank start.sec (whole_seconds p.interval_size))
        (stamp start.sec (whole_seconds p.interval_size)) 0 count rows)
      a
      (length-laid idx_of (blank start.sec (whole_seconds p.interval_size))
        (stamp start.sec (whole_seconds p.interval_size)) 0 count rows)
      (sym (histogram-laid p start count rows (h (ground (arith, some_count)))) ∙ e)

-- Where the database loads the rows of intervals in order: a response has exactly as many intervals as follow from
-- the size of an interval, the end of the request and the start of the response, and at most 20000.
pub aggregate-intervals :
    (source : Source Aggregates) (p : AggregateRequest) (a : AggregatesHistogram)
    → LoadsInOrder source p
    → aggregate source p ≡ ok a
    → (interval_count
          (whole_seconds p.interval_size)
          (source.ceil_div p.end_time a.start_time p.interval_size)
        ≡ ok (length a.intervals))
      × (length a.intervals ≤ 20000)
unfolding aggregate
aggregate-intervals source p a in_order e =
    let seconds = whole_seconds p.interval_size in
    let first = >>=-eq-ok (start_or_first p.start_time source.first_time) _ e in
    let start : Time = first.0 in
    let asked =
      >>=-eq-ok (interval_count seconds (source.ceil_div p.end_time start p.interval_size)) _
        first.2 in
    let loaded = >>=-eq-ok (source.load start asked.0) _ asked.2 in
    let shows =
      chosen-Shows p start asked.0 loaded.0 (nat_beq asked.0 0) a refl
        (λ more. in_order start asked.0 loaded.0 asked.1 more loaded.1) loaded.2 in
    let counted : interval_count seconds (source.ceil_div p.end_time a.start_time p.interval_size)
        ≡ ok (length a.intervals) =
      rw (shows.0, shows.1) asked.1 in
    (
      counted,
      interval_count-bounded seconds (source.ceil_div p.end_time a.start_time p.interval_size)
          (length a.intervals) counted,
    )
