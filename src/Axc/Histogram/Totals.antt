-- ===== src/Axc/Histogram/Totals.antt =====
-- The totals of the histograms of services/indexes/axc/reader.go, and the whole histograms.
use axia_network_v2_magellan.Prelude.{
  ℕ, ◌+◌, ◌%◌, ◌^◌, ◌<◌, List, [], ◌∷◌, Option, none, some, map, ◌≡◌, refl, sym, ap, ◌∙◌, arith,
}
use axia_network_v2_magellan.Prelude.Int.{ℤ, pos, ◌+ℤ◌, +ℤ_parts, eq_of_parts}
use axia_network_v2_magellan.Prelude.Text.{Text}
use axia_network_v2_magellan.Prelude.Result.{Result, ok, err, ◌>>=◌}
use axia_network_v2_magellan.Strconv.{big_int_set_string}
use axia_network_v2_magellan.Axc.Aggregates.{
  AggregateError, not_a_big_int, TxfeeAggregates, Aggregates,
}
use axia_network_v2_magellan.Axc.Histogram.{
  parsed_volume, volume_of, txfee_blank, txfee_stamp, txfee_step, blank, stamp, add_counts,
  aggregate_step,
}
use axia_network_v2_magellan.Axc.Histogram.Fill
use axia_network_v2_magellan.Axc.Histogram.Fill.{
  Ascends, laid, place, pad_to-place, fill-totals, totals, with_row,
}

abbrev pub plus : Option ℤ → Option ℤ → Option ℤ
plus none w = none
plus (some v) none = none
plus (some v) (some w) = some (v +ℤ w)

-- The sum of decimal texts of any size, if all of them are ones.
unfoldable pub sum_volumes : List Text → Option ℤ
sum_volumes [] = some (pos 0)
sum_volumes (s ∷ rest) = plus (big_int_set_string s) (sum_volumes rest)

abbrev pub answer : {A : Type 0} → Option ℤ → (ℤ → A) → Result AggregateError A
answer none f = err not_a_big_int
answer (some v) f = ok (f v)

+ℤ_assoc : (a b c : ℤ) → a +ℤ b +ℤ c ≡ a +ℤ (b +ℤ c)
+ℤ_assoc a b c =
    eq_of_parts (a +ℤ b +ℤ c) (a +ℤ (b +ℤ c))
      (omega (arith, +ℤ_parts (a +ℤ b) c, +ℤ_parts a b, +ℤ_parts a (b +ℤ c), +ℤ_parts b c))

pub zero-+ℤ : (a : ℤ) → pos 0 +ℤ a ≡ a
zero-+ℤ a = eq_of_parts (pos 0 +ℤ a) a (omega (arith, +ℤ_parts (pos 0) a))

+ℤ_zero : (a : ℤ) → a +ℤ pos 0 ≡ a
+ℤ_zero a = eq_of_parts (a +ℤ pos 0) a (omega (arith, +ℤ_parts a (pos 0)))

-- Adding a text to the sum of a state `k t`, when `g` adds the others up to `w`.
answer-next :
    {A T : Type 0} (v w : Option ℤ) (total : ℤ) (k : ℤ → T) (g : T → Result AggregateError A)
    (f : ℤ → A)
    → ((t : ℤ) → g (k t) ≡ answer w (λ m. f (t +ℤ m)))
    → ((volume_of v >>= λ n. ok (k (total +ℤ n))) >>= g) ≡ answer (plus v w) (λ m. f (total +ℤ m))
answer-next none w total k g f ih = refl
answer-next (some v) none total k g f ih = ih (total +ℤ v)
answer-next (some v) (some w) total k g f ih =
    ih (total +ℤ v) ∙ ap (λ (n : ℤ). ok (f n)) (+ℤ_assoc total v w)

with_row-commutes :
    {T B : Type 0} (r : Result AggregateError ℤ) (b : B) (f : ℤ → T)
    → (r >>= λ v. ok (f v, b)) ≡ ((r >>= λ v. ok (f v)) >>= with_row b)
with_row-commutes (ok v) b f = refl
with_row-commutes (err e) b f = refl

abbrev pub counted : Aggregates → List Aggregates → Aggregates
counted t [] = t
counted t (x ∷ xs) = counted (add_counts t x) xs

module _ (start seconds : ℤ) where
  pub txfee_add : ℤ → TxfeeAggregates → Result AggregateError ℤ
  txfee_add total x = parsed_volume x.txfee >>= λ v. ok (total +ℤ v)

  pub txfee_steps :
      Fill.Adds
        (λ (a : TxfeeAggregates). a.idx)
        (txfee_blank start seconds)
        (txfee_stamp start seconds)
        txfee_add
        (txfee_step start seconds)
  unfolding txfee_add txfee_step
  txfee_steps total x =
      with_row-commutes (parsed_volume x.txfee) (txfee_stamp start seconds x) (λ v. total +ℤ v)

  pub txfee_totals-sum :
      (xs : List TxfeeAggregates) (total : ℤ)
      → totals txfee_add total xs
        ≡ answer (sum_volumes (map (λ (x : TxfeeAggregates). x.txfee) xs)) (λ v. total +ℤ v)
  unfolding totals sum_volumes txfee_add
  txfee_totals-sum [] total = ap ok (sym (+ℤ_zero total))
  txfee_totals-sum (x ∷ xs) total =
      answer-next (big_int_set_string x.txfee)
        (sum_volumes (map (λ (y : TxfeeAggregates). y.txfee) xs)) total (λ t. t)
        (λ t. totals txfee_add t xs) (λ v. v) (txfee_totals-sum xs)

  pub aggregate_add : ℤ × Aggregates → Aggregates → Result AggregateError (ℤ × Aggregates)
  aggregate_add t x = parsed_volume x.transaction_volume >>= λ v. ok (t.0 +ℤ v, add_counts t.1 x)

  pub aggregate_steps :
      Fill.Adds
        (λ (a : Aggregates). a.idx)
        (blank start seconds)
        (stamp start seconds)
        aggregate_add
        (aggregate_step start seconds)
  unfolding aggregate_add aggregate_step
  aggregate_steps t x =
      with_row-commutes (parsed_volume x.transaction_volume) (stamp start seconds x)
        (λ v. (t.0 +ℤ v, add_counts t.1 x))

  pub aggregate_totals-sum :
      (xs : List Aggregates) (total : ℤ) (t : Aggregates)
      → totals aggregate_add (total, t) xs
        ≡ answer
            (sum_volumes (map (λ (x : Aggregates). x.transaction_volume) xs))
            (λ v. (total +ℤ v, counted t xs))
  unfolding totals sum_volumes aggregate_add
  aggregate_totals-sum [] total t = ap (λ (n : ℤ). ok (n, t)) (sym (+ℤ_zero total))
  aggregate_totals-sum (x ∷ xs) total t =
      answer-next (big_int_set_string x.transaction_volume)
        (sum_volumes (map (λ (y : Aggregates). y.transaction_volume) xs)) total
        (λ n. (n, add_counts t x)) (λ u. totals aggregate_add u xs)
        (λ v. (v, counted (add_counts t x) xs)) (λ n. aggregate_totals-sum xs n (add_counts t x))

-- The sum of a count over rows
unfoldable pub sum_of : (Aggregates → ℕ) → List Aggregates → ℕ
sum_of f [] = 0
sum_of f (x ∷ xs) = f x + sum_of f xs

abbrev pub with_counts : Aggregates → ℕ → ℕ → ℕ → ℕ → Aggregates
with_counts t transactions outputs addresses assets = record t {
  transaction_count = transactions;
  output_count = outputs;
  address_count = addresses;
  asset_count = assets;
}

wrap_twice : (a b c : ℕ) → ((a + b) % 2 ^ 64 + c) % 2 ^ 64 ≡ (a + (b + c)) % 2 ^ 64
wrap_twice a b c = omega arith

-- Adding row by row, with a wrap each time, is one sum with one wrap.
pub counted-sum_of :
    (xs : List Aggregates) (t : Aggregates)
    → t.transaction_count < 2 ^ 64
    → t.output_count < 2 ^ 64
    → t.address_count < 2 ^ 64
    → t.asset_count < 2 ^ 64
    → counted t xs
      ≡ with_counts t
          ((t.transaction_count + sum_of (λ x. x.transaction_count) xs) % 2 ^ 64)
          ((t.output_count + sum_of (λ x. x.output_count) xs) % 2 ^ 64)
          ((t.address_count + sum_of (λ x. x.address_count) xs) % 2 ^ 64)
          ((t.asset_count + sum_of (λ x. x.asset_count) xs) % 2 ^ 64)
unfolding sum_of add_counts
counted-sum_of [] t h1 h2 h3 h4 =
    let e1 : (t.transaction_count + 0) % 2 ^ 64 ≡ t.transaction_count = omega (arith, h1) in
    let e2 : (t.output_count + 0) % 2 ^ 64 ≡ t.output_count = omega (arith, h2) in
    let e3 : (t.address_count + 0) % 2 ^ 64 ≡ t.address_count = omega (arith, h3) in
    let e4 : (t.asset_count + 0) % 2 ^ 64 ≡ t.asset_count = omega (arith, h4) in
    rw (e1, e2, e3, e4) refl
counted-sum_of (x ∷ xs) t h1 h2 h3 h4 =
    counted-sum_of xs (add_counts t x) (omega arith) (omega arith) (omega arith) (omega arith)
    ∙ rw
        (
          wrap_twice t.transaction_count x.transaction_count (sum_of (λ y. y.transaction_count) xs),
          wrap_twice t.output_count x.output_count (sum_of (λ y. y.output_count) xs),
          wrap_twice t.address_count x.address_count (sum_of (λ y. y.address_count) xs),
          wrap_twice t.asset_count x.asset_count (sum_of (λ y. y.asset_count) xs),
        )
        refl
