-- ===== src/Params/Transactions/Parsed.antt =====
-- What is parsed from a query for transactions.
use mathlib.Core.List.{append_assoc, append-nil}
use axia_network_v2_magellan.Prelude.{
  ℕ, zero, suc, not, nat_beq, if◌then◌else◌, refl, ◌≡◌, arith, List, [], ◌∷◌, ◌++◌, false, some,
  ◌∙◌,
}
use axia_network_v2_magellan.Prelude.Eq.{elem, ◌==◌, beq_refl}
use axia_network_v2_magellan.Prelude.Text.{Text, codes, text_eq, text_beq_iff}
use axia_network_v2_magellan.Prelude.Result.{Result, ok, >>=-eq-ok}
use axia_network_v2_magellan.Strconv.{parse_uint}
use axia_network_v2_magellan.Params.Query.{
  Error, Values, Env, Ident, num, address_from_string, values, get_query_id, get_query_bool,
}
use axia_network_v2_magellan.Params.ListParams.{for_values_allow_offset}
use axia_network_v2_magellan.Params.Transactions.{
  parse_all, ListTransactionsParams, for_values, for_value_chain_id,
}

-- `vs` are the values of the strings `strs`, in order.
abbrev pub Parses : {A : Type 0} → (Text → Result Error A) → List Text → List A → Type 0
Parses parse [] [] = Unit
Parses parse [] (v ∷ vs) = ⊥
Parses parse (s ∷ strs) [] = ⊥
Parses parse (s ∷ strs) (v ∷ vs) = (parse s ≡ ok v) × Parses parse strs vs

module _ {A : Type 0} (parse : Text → Result Error A) where
  -- A parse loop that succeeds has parsed every string, in order, behind what was there.
  pub parse_all-Parses :
      (strs : List Text) (out : List A) {r : List A}
      → parse_all parse strs out ≡ ok r
      → (vs : List A) × (r ≡ out ++ vs) × Parses parse strs vs
  unfolding parse_all
  parse_all-Parses [] out h = ([], ground (arith, append-nil out), tt)
  parse_all-Parses (s ∷ strs) out h =
      let (v, e, h') = >>=-eq-ok (parse s) (λ v. parse_all parse strs (out ++ v ∷ [])) h in
      let (vs, r, ps) = parse_all-Parses strs (out ++ v ∷ []) h' in
      (v ∷ vs, r ∙ append_assoc out (v ∷ []) vs, (e, ps))

-- A request for transactions that is accepted.
pub record IsParsed (env : Env) (q : Values) (p p' : ListTransactionsParams) : Type 0 where
  pub types : List ℕ
  pub types_added : p'.output_output_types ≡ p.output_output_types ++ types
  pub types_parsed : Parses (λ s. num (parse_uint 32 s)) (values q (codes "outputOutputType")) types
  pub groups : List ℕ
  pub groups_added : p'.output_group_ids ≡ p.output_group_ids ++ groups
  pub groups_parsed : Parses (λ s. num (parse_uint 64 s)) (values q (codes "outputGroupId")) groups
  pub new_addresses : List Ident
  pub addresses_added : p'.addresses ≡ p.addresses ++ new_addresses
  pub addresses_parsed : Parses (address_from_string env) (values q (codes "address")) new_addresses
  pub chains : p'.chain_ids ≡ values q (codes "chainID")

-- The filters of an accepted request are the values of all strings of their keys, each parsed, in
-- order, behind those that were there; one bad string refuses the request.
pub for_values-IsParsed :
    (env : Env) (p : ListTransactionsParams) (v : ℕ) (q : Values) (p' : ListTransactionsParams)
    → for_values env p v q ≡ ok p'
    → IsParsed env q p p'
unfolding for_values
for_values-IsParsed env p v q p' h =
    let (l, _, h1) = >>=-eq-ok (for_values_allow_offset env v q) _ h in
    let (a, _, h2) = >>=-eq-ok (get_query_id env q (codes "assetID")) _ h1 in
    let (t, et, h3) = >>=-eq-ok (parse_all _ _ p.output_output_types) _ h2 in
    let (g, eg, h4) = >>=-eq-ok (parse_all _ _ p.output_group_ids) _ h3 in
    let (d, ed, h5) = >>=-eq-ok (parse_all _ _ p.addresses) _ h4 in
    let (b, _, h6) = >>=-eq-ok (get_query_bool q (codes "disableGenesis") false) _ h5 in
    let (ts, tr, tp) = parse_all-Parses _ _ p.output_output_types et in
    let (gs, gr, gp) = parse_all-Parses _ _ p.output_group_ids eg in
    let (ds, dr, dp) = parse_all-Parses _ _ p.addresses ed in
    record {
      types = ts;
      types_added = cc (h6, tr);
      types_parsed = tp;
      groups = gs;
      groups_added = cc (h6, gr);
      groups_parsed = gp;
      new_addresses = ds;
      addresses_added = cc (h6, dr);
      addresses_parsed = dp;
      chains = cc h6;
    }

-- How often a text is in a list
unfoldable pub occurrences : Text → List Text → ℕ
occurrences c [] = 0
occurrences c (x ∷ xs) = let rest = occurrences c xs in if x == c then suc rest else rest

abbrev pub at_least_once : ℕ → ℕ
at_least_once zero = 1
at_least_once (suc n) = suc n

abbrev pub first_or : Text → List Text → Text
first_or c [] = c
first_or c (x ∷ xs) = x

elem-occurrences : (c : Text) (l : List Text) → elem c l ≡ not (nat_beq (occurrences c l) 0)
unfolding elem occurrences
elem-occurrences c [] = refl
elem-occurrences c (x ∷ xs) = ground (arith, elem-occurrences c xs)

-- With the chain of the path: each other chain is in the result as often as in the query, and the chain
-- itself as often as there too, or once if the query does not name it. In that case it is the first of
-- the result, and otherwise the first is that of the query. A second call changes nothing.
pub occurrences-for_value_chain_id :
    (env : Env) (id : Ident) (chain_ids : List Text) (c : Text)
    → (occurrences c (for_value_chain_id env (some id) chain_ids) ≡ (
        if env.id_string id == c
        then at_least_once (occurrences c chain_ids)
        else occurrences c chain_ids))
      × (first_or [] (for_value_chain_id env (some id) chain_ids) ≡ (
          if nat_beq (occurrences (env.id_string id) chain_ids) 0
          then env.id_string id
          else first_or [] chain_ids))
      × (for_value_chain_id env (some id) (for_value_chain_id env (some id) chain_ids)
          ≡ for_value_chain_id env (some id) chain_ids)
unfolding for_value_chain_id occurrences elem
occurrences-for_value_chain_id env id chain_ids c = (
  ground (
    arith,
    text_beq_iff (env.id_string id) c,
    elem-occurrences (env.id_string id) chain_ids,
    elem-occurrences c chain_ids,
  ),
  ground (arith, elem-occurrences (env.id_string id) chain_ids),
  ground (arith, beq_refl (env.id_string id)),
)
