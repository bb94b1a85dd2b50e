-- ===== src/Api/Values.antt =====
-- api/utils.go: the parameters of a request, from its URL and from a JSON body. The decoder of the
-- JSON body is a parameter.
pub mod Merged
use axia_network_v2_magellan.Prelude.{
  ℕ, List, [], ◌∷◌, ◌++◌, Option, none, some, if◌then◌else◌, length, leb, take,
}
use axia_network_v2_magellan.Prelude.Text.{Text, text_eq}
use axia_network_v2_magellan.Prelude.Result.{Result, ok, err}
use axia_network_v2_magellan.Prelude.Dict.{lookup, insert}
use axia_network_v2_magellan.Params.Query.{Values}

abbrev pub appended : Option (List Text) → List Text → List Text
appended none v = v
appended (some w) v = w ++ v

-- `mergeValues`
unfoldable pub merge_values : Values → Values → Values
merge_values a [] = a
merge_values a ((k, v) ∷ b) = merge_values (insert k (appended (lookup k a) v) a) b

-- A body: the bytes that it gives, and the error that then ends it in place of the end of file.
pub record Body : Type 0 where
  pub bytes : List ℕ
  pub failure : Option Text

pub record WebRequest : Type 0 where
  pub query : Values
  pub body : Option Body

-- `io.CopyN` into an empty buffer: the text, or an error that is not the end of file.
unfoldable pub copy_n : Body → ℕ → Result Text Text
copy_n b n =
    if leb n (length b.bytes)
    then ok (take n b.bytes)
    else elim b.failure [ none ↦ ok b.bytes | some e ↦ err e ]

abbrev pub decoded : Values → Result Text Values → Values × Option Text
decoded query (ok qdata) = (merge_values qdata query, none)
decoded query (err e) = (query, some e)

module _ (unmarshal : Text → Result Text Values) where
  abbrev pub of_text : Values → Result Text Text → Values × Option Text
  of_text query (err e) = (query, some e)
  of_text query (ok []) = (query, none)
  of_text query (ok (b ∷ s)) = decoded query (unmarshal (b ∷ s))

  abbrev pub of_body : Values → Option Body → ℕ → Values × Option Text
  of_body query none n = (query, none)
  of_body query (some b) n = of_text query (copy_n b n)

  -- `ParseGetJSON` on a request that is not nil
  unfoldable pub parse_get_json : WebRequest → ℕ → Values × Option Text
  parse_get_json r n = of_body r.query r.body n
