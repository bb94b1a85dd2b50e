-- ===== src/Api/Values/Merged.antt =====
-- What a handler reads from the URL and the body together.
use axia_network_v2_magellan.Prelude.{
  ℕ, ◌≡◌, refl, ◌∙◌, List, [], ◌∷◌, ◌++◌, Option, none, some, arith,
}
use axia_network_v2_magellan.Prelude.Text.{Text, text_eq, text_beq_iff}
use axia_network_v2_magellan.Prelude.Result.{Result, ok, err}
use axia_network_v2_magellan.Prelude.Dict.{lookup, insert, lookup-insert, IsMap}
use axia_network_v2_magellan.Params.Query.{Values}
use axia_network_v2_magellan.Api.Values.{
  appended, merge_values, Body, WebRequest, copy_n, decoded, of_text, of_body, parse_get_json,
}

-- The values of a key in either source, those of the first before those of the second.
abbrev pub both : Option (List Text) → Option (List Text) → Option (List Text)
both v none = v
both none (some w) = some w
both (some v) (some w) = some (v ++ w)

both-appended : (v : Option (List Text)) (w : List Text) → both v (some w) ≡ some (appended v w)
both-appended none w = refl
both-appended (some v) w = refl

-- For maps, which have a key once: the merged values of a key are those of the first map and then
-- those of the second.
pub lookup-merge_values :
    (a b : Values) (k : Text)
    → IsMap b
    → lookup k (merge_values a b) ≡ both (lookup k a) (lookup k b)
unfolding merge_values lookup
lookup-merge_values a [] k h = refl
lookup-merge_values a ((j, v) ∷ b) k h =
    lookup-merge_values (insert j (appended (lookup j a) v) a) b k h.1
    ∙ ground (
      arith,
      lookup-insert j k (appended (lookup j a) v) a,
      text_beq_iff j k,
      h.0,
      both-appended (lookup k a) v,
    )

module _ (unmarshal : Text → Result Text Values) where
  abbrev decoded_values : Result Text Values → Values
  decoded_values (ok qdata) = qdata
  decoded_values (err e) = []

  abbrev text_values : Result Text Text → Values
  text_values (ok (b ∷ s)) = decoded_values (unmarshal (b ∷ s))
  text_values (ok []) = []
  text_values (err e) = []

  -- The values of a body, none if it is missing, empty, cut short by an error, or not decoded.
  abbrev pub body_values : Option Body → ℕ → Values
  body_values none n = []
  body_values (some b) n = text_values (copy_n b n)

  both-none : (o : Option (List Text)) → o ≡ both none o
  both-none none = refl
  both-none (some v) = refl

  lookup-decoded :
      (query : Values) (d : Result Text Values) (k : Text)
      → IsMap query
      → lookup k (decoded query d).0 ≡ both (lookup k (decoded_values d)) (lookup k query)
  unfolding lookup
  lookup-decoded query (ok qdata) k h = lookup-merge_values qdata query k h
  lookup-decoded query (err e) k h = both-none (lookup k query)

  lookup-of_text :
      (query : Values) (t : Result Text Text) (k : Text)
      → IsMap query
      → lookup k (of_text unmarshal query t).0 ≡ both (lookup k (text_values t)) (lookup k query)
  unfolding lookup
  lookup-of_text query (ok (b ∷ s)) k h = lookup-decoded query (unmarshal (b ∷ s)) k h
  lookup-of_text query (ok []) k h = both-none (lookup k query)
  lookup-of_text query (err e) k h = both-none (lookup k query)

  lookup-of_body :
      (query : Values) (b : Option Body) (n : ℕ) (k : Text)
      → IsMap query
      → lookup k (of_body unmarshal query b n).0
        ≡ both (lookup k (body_values b n)) (lookup k query)
  unfolding lookup
  lookup-of_body query none n k h = both-none (lookup k query)
  lookup-of_body query (some b) n k h = lookup-of_text query (copy_n b n) k h

  -- Where the query of the URL has a key once: for each key, a handler sees the values of the decoded
  -- body and then those of the URL; a body that is missing, empty, cut short by an error, or not
  -- decoded adds none.
  pub lookup-parse_get_json :
      (r : WebRequest) (n : ℕ) (k : Text)
      → IsMap r.query
      → lookup k (parse_get_json unmarshal r n).0
        ≡ both (lookup k (body_values r.body n)) (lookup k r.query)
  unfolding parse_get_json
  lookup-parse_get_json r n k h = lookup-of_body r.query r.body n k h
