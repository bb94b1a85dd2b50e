-- ===== src/Params/Listings/Outcomes.antt =====
-- How the parsers of services/indexes/params/collections.go end.
use axia_network_v2_magellan.Prelude.{
  ℕ, Bool, List, [], ◌∷◌, Option, none, some, ◌≡◌, ◌↔◌, refl, Option-cases, inl, inr,
}
use axia_network_v2_magellan.Prelude.Dict.{lookup}
use axia_network_v2_magellan.Prelude.Text.{Text, codes, text_eq}
use axia_network_v2_magellan.Prelude.Result.{Result, ok, err, ◌>>=◌}
use axia_network_v2_magellan.Strconv.{parse_bool}
use axia_network_v2_magellan.Params.Query.{Error, Values, Ident, Env, values, address_from_string}
use axia_network_v2_magellan.Params.ListParams
use axia_network_v2_magellan.Params.ListParams.{ListParams}
use axia_network_v2_magellan.Params.Transactions.{parse_all}
use axia_network_v2_magellan.Params.Listings.{
  ListOutputsParams, Failure, index_panic, or_fails, first_spent, outputs_for_values,
}

-- What a bind of a panic is.
panics_after :
    {A B : Type 0} (r : Result Error A) (f : A → Result Failure B)
    → (or_fails r >>= f) ≡ err index_panic
    → (a : A) × (r ≡ ok a) × (f a ≡ err index_panic)
panics_after (ok a) f h = (a, refl, h)
panics_after (err e) f h = cc

spent_panics :
    {B : Type 0} (old : Option Bool) (o : Option (List Text)) (f : Option Bool → B)
    → (first_spent old o >>= λ s. ok (f s)) ≡ err index_panic
    → o ≡ some []
spent_panics old none f h = cc
spent_panics old (some []) f h = refl
spent_panics old (some (s ∷ strs)) f h = elim (Option-cases (parse_bool s)) [
  | inl e ↦ let h' = rw e at h in cc
  | inr (b, e) ↦ let h' = rw e at h in cc
]

-- The parser of the outputs' parameters panics exactly if the query has the key `spent` with an empty
-- list of values, and the common parameters and the addresses before it are read without an error.
pub outputs_for_values-panics_iff :
    (env : Env) (p : ListOutputsParams) (v : ℕ) (q : Values)
    → (outputs_for_values env p v q ≡ err index_panic) ↔ (
        (lookup (codes "spent") q ≡ some [])
        × ((l : ListParams) × (ListParams.for_values env v q ≡ ok l))
        × ((addresses : List Ident) × (parse_all
                (address_from_string env)
                (values q (codes "address"))
                p.addresses
              ≡ ok addresses)))
unfolding outputs_for_values
outputs_for_values-panics_iff env p v q = (
  (λ h.
      let (l, e, h') = panics_after (ListParams.for_values env v q) _ h in
      let (a, e', h'') =
        panics_after (parse_all (address_from_string env) (values q (codes "address")) p.addresses)
          _ h' in
      (spent_panics p.spent (lookup (codes "spent") q) _ h'', (l, e), (a, e'))),
  (λ h. rw (h.1.1, h.2.1, h.0) refl),
)
