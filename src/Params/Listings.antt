-- ===== src/Params/Listings.antt =====
-- services/indexes/params/collections.go: the parameters of the smaller listings, and of the aggregates.
pub mod Outcomes
use axia_network_v2_magellan.Prelude.{
  ℕ, ◌/◌, ◌^◌, Bool, true, false, List, [], ◌∷◌, ◌++◌, Option, none, some, if◌then◌else◌, map,
}
use axia_network_v2_magellan.Prelude.Int.{ℤ, pos_part, neg_part, sub_ℕ}
use axia_network_v2_magellan.Prelude.Dict.{lookup}
use axia_network_v2_magellan.Prelude.Text.{Text, codes, text_eq}
use axia_network_v2_magellan.Prelude.Result.{Result, ok, err, ◌>>=◌}
use axia_network_v2_magellan.Strconv.{itoa, format_bool, join, parse_bool}
use axia_network_v2_magellan.Params.Query.{
  Error, num_error, Values, Ident, Env, values, get_query_string, get_query_interval, get_query_id,
  get_query_address, address_from_string,
}
use axia_network_v2_magellan.Params.ListParams
use axia_network_v2_magellan.Params.ListParams.{ListParams, key_value}
use axia_network_v2_magellan.Params.Transactions.{parse_all, asset_key}

-- `SearchParams`, `ListBlocksParams` and `TxDataParam` pass the common parameters on.
unfoldable pub search_for_values : Env → ℕ → Values → Result Error ListParams
search_for_values env v q = ListParams.for_values env v q

unfoldable pub search_cache_key : Env → ListParams → List Text
search_cache_key env p = ListParams.cache_key env p

pub record TxfeeAggregateParams : Type 0 where
  pub list_params : ListParams
  pub interval_size : ℤ
  pub chain_ids : List Text

unfoldable pub txfee_for_values : Env → ℕ → Values → Result Error TxfeeAggregateParams
txfee_for_values env v q = do
  list_params ← ListParams.for_values env v q
  interval ← get_query_interval env q (codes "intervalSize")
  ok (record {
    list_params = list_params;
    interval_size = interval;
    chain_ids = values q (codes "chainID");
  })

-- `int64(d.Seconds())` of a duration in nanoseconds
unfoldable pub seconds_of : ℤ → ℤ
seconds_of d = sub_ℕ (pos_part d / 10 ^ 9) (neg_part d / 10 ^ 9)

unfoldable pub txfee_cache_key : Env → TxfeeAggregateParams → List Text
txfee_cache_key env p =
    ListParams.cache_key env p.list_params
    ++ (key_value (codes "intervalSize") (itoa (seconds_of p.interval_size))
        ∷ key_value (codes "chainID") (join (codes "|") p.chain_ids)
        ∷ [])

pub record AggregateParams : Type 0 where
  pub list_params : ListParams
  pub chain_ids : List Text
  pub asset_id : Option Ident
  pub interval_size : ℤ

unfoldable pub aggregate_for_values : Env → ℕ → Values → Result Error AggregateParams
aggregate_for_values env v q = do
  list_params ← ListParams.for_values env v q
  asset_id ← get_query_id env q (codes "assetID")
  interval ← get_query_interval env q (codes "intervalSize")
  ok (record {
    list_params = list_params;
    chain_ids = values q (codes "chainID");
    asset_id = asset_id;
    interval_size = interval;
  })

unfoldable pub aggregate_cache_key : Env → AggregateParams → List Text
aggregate_cache_key env p =
    ListParams.cache_key env p.list_params
    ++ (asset_key env p.asset_id
        ++ (key_value (codes "intervalSize") (itoa (seconds_of p.interval_size))
            ∷ key_value (codes "chainID") (join (codes "|") p.chain_ids)
            ∷ []))

pub record ListAssetsParams : Type 0 where
  pub list_params : ListParams
  pub alias : Text
  pub path_param_id : Text

unfoldable pub assets_for_values :
    Env → ListAssetsParams → ℕ → Values → Result Error ListAssetsParams
assets_for_values env p v q = do
  list_params ← ListParams.for_values env v q
  ok (record {
    list_params = list_params;
    alias = get_query_string q (codes "alias") [];
    path_param_id = p.path_param_id;
  })

unfoldable pub assets_cache_key : Env → ListAssetsParams → List Text
assets_cache_key env p =
    ListParams.cache_key env p.list_params
    ++ (key_value (codes "alias") p.alias ∷ key_value (codes "PathParamID") p.path_param_id ∷ [])

pub record ListAddressesParams : Type 0 where
  pub list_params : ListParams
  pub chain_ids : List Text
  pub address : Option Ident

-- With no address, a query string is read as one.
abbrev pub query_address : Env → Option Ident → Text → Result Error (Option Ident)
query_address env (some address) query = ok (some address)
query_address env none [] = ok none
query_address env none (c ∷ query) = address_from_string env (c ∷ query) >>= λ addr. ok (some addr)

unfoldable pub addresses_for_values : Env → ℕ → Values → Result Error ListAddressesParams
addresses_for_values env v q = do
  list_params ← ListParams.for_values env v q
  address ← get_query_address env q (codes "address")
  address' ← query_address env address list_params.query
  ok (record {
    list_params = list_params;
    chain_ids = values q (codes "chainID");
    address = address';
  })

abbrev pub address_key : Env → Option Ident → List Text
address_key env none = []
address_key env (some a) = key_value (codes "address") (env.short_string a) ∷ []

unfoldable pub addresses_cache_key : Env → ListAddressesParams → List Text
addresses_cache_key env p =
    ListParams.cache_key env p.list_params
    ++ (address_key env p.address
        ++ (key_value (codes "chainID") (join (codes "|") p.chain_ids) ∷ []))

pub record AddressChainsParams : Type 0 where
  pub list_params : ListParams
  pub addresses : List Ident

unfoldable pub address_chains_for_values :
    Env → AddressChainsParams → ℕ → Values → Result Error AddressChainsParams
address_chains_for_values env p v q = do
  list_params ← ListParams.for_values env v q
  addresses ← parse_all (address_from_string env) (values q (codes "address")) p.addresses
  ok (record { list_params = list_params; addresses = addresses })

unfoldable pub address_chains_cache_key : Env → AddressChainsParams → List Text
address_chains_cache_key env p =
    ListParams.cache_key env p.list_params
    ++ map (λ a. key_value (codes "address") (env.short_string a)) p.addresses

pub record ListOutputsParams : Type 0 where
  pub list_params : ListParams
  pub chain_ids : List Text
  pub addresses : List Ident
  pub spent : Option Bool

-- Reading the first element of a list that is there and empty panics.
pub data Failure : Type 0 where
  fails : Error → Failure
  index_panic : Failure

abbrev pub or_fails : {A : Type 0} → Result Error A → Result Failure A
or_fails (ok a) = ok a
or_fails (err e) = err (fails e)

abbrev pub parsed_spent : Option Bool → Result Failure (Option Bool)
parsed_spent none = err (fails num_error)
parsed_spent (some b) = ok (some b)

abbrev pub first_spent : Option Bool → Option (List Text) → Result Failure (Option Bool)
first_spent old none = ok old
first_spent old (some []) = err index_panic
first_spent old (some (s ∷ strs)) = parsed_spent (parse_bool s)

unfoldable pub outputs_for_values :
    Env → ListOutputsParams → ℕ → Values → Result Failure ListOutputsParams
outputs_for_values env p v q = do
  list_params ← or_fails (ListParams.for_values env v q)
  addresses ←
      or_fails (parse_all (address_from_string env) (values q (codes "address")) p.addresses)
  spent ← first_spent p.spent (lookup (codes "spent") q)
  ok (record {
    list_params = list_params;
    chain_ids = values q (codes "chainID");
    addresses = addresses;
    spent = spent;
  })

abbrev pub spent_key : Option Bool → List Text
spent_key none = []
spent_key (some b) = key_value (codes "spent") (format_bool b) ∷ []

unfoldable pub outputs_cache_key : Env → ListOutputsParams → List Text
outputs_cache_key env p =
    ListParams.cache_key env p.list_params
    ++ (key_value (codes "chainID") (join (codes "|") p.chain_ids)
        ∷ (map (λ a. key_value (codes "address") (env.short_string a)) p.addresses
            ++ spent_key p.spent))
