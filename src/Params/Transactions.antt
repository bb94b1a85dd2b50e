-- ===== src/Params/Transactions.antt =====
-- services/indexes/params/collections.go: the parameters of the list of transactions, the sort
-- orders, and `ForValueChainID`.
pub mod Parsed
use axia_network_v2_magellan.Prelude.{
  ℕ, Bool, true, false, List, [], ◌∷◌, ◌++◌, Option, none, some, if◌then◌else◌, map,
}
use axia_network_v2_magellan.Prelude.Int.{ℤ}
use axia_network_v2_magellan.Prelude.Eq.{◌==◌, elem}
use axia_network_v2_magellan.Prelude.Text.{Text, codes, text_eq}
use axia_network_v2_magellan.Prelude.Result.{Result, ok, err, ◌>>=◌}
use axia_network_v2_magellan.Strconv.{parse_uint, format_bool, join}
use axia_network_v2_magellan.Params.Query.{
  Error, Values, Ident, Env, num, values, get_query_bool, get_query_id, address_from_string,
}
use axia_network_v2_magellan.Params.ListParams
use axia_network_v2_magellan.Params.ListParams.{ListParams, for_values_allow_offset, key_value}

pub data TransactionSort : Type 0 where
  timestamp_asc timestamp_desc : TransactionSort

unfoldable pub to_transaction_sort : Text → TransactionSort
to_transaction_sort s =
    if s == codes "timestamp-asc"
    then timestamp_asc
    else if s == codes "timestamp-desc"
    then timestamp_desc
    else timestamp_asc

-- `TransactionSort.String`
unfoldable pub sort_string : TransactionSort → Text
sort_string timestamp_desc = codes "timestamp-desc"
sort_string timestamp_asc = codes "timestamp-asc"

-- The first value of `sort`, or the default order.
abbrev pub first_sort : List Text → TransactionSort
first_sort [] = timestamp_asc
first_sort (s ∷ strs) = to_transaction_sort s

unfoldable pub get_sort : Values → TransactionSort
get_sort q = first_sort (values q (codes "sort"))

-- `for _, s := range strs { v, err := parse(s); if err != nil {return err}; out = append(out, v) }`
unfoldable pub parse_all :
    {A : Type 0} → (Text → Result Error A) → List Text → List A → Result Error (List A)
parse_all parse [] out = ok out
parse_all parse (s ∷ strs) out = parse s >>= λ v. parse_all parse strs (out ++ v ∷ [])

pub record ListTransactionsParams : Type 0 where
  pub list_params : ListParams
  pub chain_ids : List Text
  pub addresses : List Ident
  pub asset_id : Option Ident
  pub output_output_types : List ℕ
  pub output_group_ids : List ℕ
  pub disable_genesis : Bool
  pub sort : TransactionSort

-- `ListTransactionsParams.ForValues`, on the parameters `p` that it appends to.
unfoldable pub for_values :
    Env → ListTransactionsParams → ℕ → Values → Result Error ListTransactionsParams
for_values env p v q = do
  list_params ← for_values_allow_offset env v q
  asset_id ← get_query_id env q (codes "assetID")
  types ←
      parse_all (λ s. num (parse_uint 32 s)) (values q (codes "outputOutputType"))
        p.output_output_types
  groups ←
      parse_all (λ s. num (parse_uint 64 s)) (values q (codes "outputGroupId")) p.output_group_ids
  addresses ← parse_all (address_from_string env) (values q (codes "address")) p.addresses
  disable_genesis ← get_query_bool q (codes "disableGenesis") false
  ok (record {
    list_params = list_params;
    chain_ids = values q (codes "chainID");
    addresses = addresses;
    asset_id = asset_id;
    output_output_types = types;
    output_group_ids = groups;
    disable_genesis = disable_genesis;
    sort = get_sort q;
  })

abbrev pub asset_key : Env → Option Ident → List Text
asset_key env none = []
asset_key env (some id) = key_value (codes "assetID") (env.id_string id) ∷ []

-- `ListTransactionsParams.CacheKey`
unfoldable pub cache_key : Env → ListTransactionsParams → List Text
cache_key env p =
    ListParams.cache_key env p.list_params
    ++ key_value (codes "sort") (sort_string p.sort)
      ∷ (asset_key env p.asset_id
          ++ (map (λ a. key_value (codes "address") (env.short_string a)) p.addresses
              ++ key_value (codes "chainID") (join (codes "|") p.chain_ids)
                ∷ key_value (codes "disableGenesis") (format_bool p.disable_genesis)
                ∷ []))

-- `ForValueChainID`: the chain of the API's path goes first, unless the query names it already.
unfoldable pub for_value_chain_id : Env → Option Ident → List Text → List Text
for_value_chain_id env none chain_ids = chain_ids
for_value_chain_id env (some chain_id) chain_ids =
    if elem (env.id_string chain_id) chain_ids
    then chain_ids
    else env.id_string chain_id ∷ chain_ids
