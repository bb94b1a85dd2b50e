-- ===== src/Tests/Requests.antt =====
-- Queries and the parameters that they are read as.
use axia_network_v2_magellan.Prelude.{
  true, false, nat_beq, if◌then◌else◌, List, [], ◌∷◌, none, some, ◌≡◌, ◌↔◌, refl, arith,
}
use axia_network_v2_magellan.Prelude.Int.{pos}
use axia_network_v2_magellan.Prelude.Eq.{◌==◌}
use axia_network_v2_magellan.Prelude.Dict.{lookup, insert}
use axia_network_v2_magellan.Prelude.Text.{codes, text_eq, text_beq}
use axia_network_v2_magellan.Prelude.Result.{Result, ok, err, ◌>>=◌}
use axia_network_v2_magellan.Strconv.{
  atoi, big_int_set_string, parse_uint, digits_value, parse_bool,
}
use axia_network_v2_magellan.Params.Query
use axia_network_v2_magellan.Params.Query.{Values, Ident, values, address_from_string}
use axia_network_v2_magellan.Params.ListParams
use axia_network_v2_magellan.Params.ListParams.{ListParams}
use axia_network_v2_magellan.Params.ListParams.Bounds.{IsBounded, for_values_offset-IsBounded}
use axia_network_v2_magellan.Params.ListParams.Key.{SameKeyed, cache_key-SameKeyed_iff}
use axia_network_v2_magellan.Params.ListParams.Reads.{Agree, for_values_offset-Agree}
use axia_network_v2_magellan.Params.Transactions
use axia_network_v2_magellan.Params.Transactions.{
  ListTransactionsParams, timestamp_asc, timestamp_desc, to_transaction_sort, sort_string,
  for_value_chain_id, parse_all,
}
use axia_network_v2_magellan.Params.Transactions.Parsed
use axia_network_v2_magellan.Params.CTransactions
use axia_network_v2_magellan.Params.CTransactions.{ListCTransactionsParams, with_0x}
use axia_network_v2_magellan.Params.CTransactions.Parsed.{
  block_start, key_text, Asks, cache_key-Unkeyed,
}
use axia_network_v2_magellan.Params.Listings.{ListOutputsParams, index_panic, outputs_for_values}
use axia_network_v2_magellan.Params.Listings.Outcomes.{outputs_for_values-panics_iff}
use axia_network_v2_magellan.Tests.Setting.{env, noon}

abbrev limited : Values
limited = (codes "limit", codes "9999" ∷ []) ∷ []

-- What an empty result stands for where a query is refused.
abbrev no_params : ListParams
no_params = record {
  values = [];
  id = none;
  query = [];
  limit = pos 0;
  offset = pos 0;
  disable_counting = false;
  start_time_provided = false;
  end_time_provided = false;
  start_time = noon;
  end_time = noon;
}

abbrev value_or : {A : Type 0} → A → Result Query.Error A → A
value_or a (ok b) = b
value_or a (err e) = a

abbrev limited_params : ListParams
limited_params = value_or no_params (ListParams.for_values_offset env 0 limited false)

limited_accepted : ListParams.for_values_offset env 0 limited false ≡ ok limited_params
unfolding ListParams.for_values_offset ListParams.for_values ListParams.for_values_allow_offset
    ListParams.clamp_limit Query.get_query_int Query.get_query_bool Query.get_query_string
    Query.get_query_time Query.get_query_id Query.round_second Query.is_zero values lookup insert
    text_beq atoi parse_uint digits_value parse_bool
limited_accepted = refl

for_values_offset-IsBounded_example : IsBounded false limited_params
for_values_offset-IsBounded_example =
    for_values_offset-IsBounded env 0 limited false limited_params limited_accepted

abbrev marked : Values
marked = (codes "limit", codes "9999" ∷ []) ∷ (codes "note", codes "x" ∷ []) ∷ []

marked-Agree : Agree limited marked
unfolding values lookup text_beq
marked-Agree = record {
  limit = refl;
  offset = refl;
  id = refl;
  start_time = refl;
  end_time = refl;
  disable_count = refl;
  query = refl;
}

for_values_offset-Agree_example :
    ListParams.for_values_offset env 0 marked false
    ≡ (ListParams.for_values_offset env 0 limited false >>= λ p. ok (record p { values = marked }))
for_values_offset-Agree_example = for_values_offset-Agree env 0 limited marked false marked-Agree

-- The same, with the end time given
abbrev ended : ListParams
ended = record no_params { values = limited; end_time_provided = true }

cache_key-SameKeyed_iff_example :
    (ListParams.cache_key env no_params ≡ ListParams.cache_key env ended)
    ↔ SameKeyed no_params ended
cache_key-SameKeyed_iff_example =
    cache_key-SameKeyed_iff env no_params ended (λ i j e. e)
      (record {
        limit = omega arith;
        offset = omega arith;
        start_sec = omega arith;
        end_sec = omega arith;
      })
      (record {
        limit = omega arith;
        offset = omega arith;
        start_sec = omega arith;
        end_sec = omega arith;
      })

abbrev typed : Values
typed = (codes "outputOutputType", codes "7" ∷ codes "10" ∷ []) ∷ []

abbrev no_transactions : ListTransactionsParams
no_transactions = record {
  list_params = no_params;
  chain_ids = [];
  addresses = [];
  asset_id = none;
  output_output_types = [];
  output_group_ids = [];
  disable_genesis = false;
  sort = timestamp_asc;
}

abbrev typed_params : ListTransactionsParams
typed_params = value_or no_transactions (Transactions.for_values env no_transactions 0 typed)

typed_accepted : Transactions.for_values env no_transactions 0 typed ≡ ok typed_params
unfolding ListParams.for_values_offset ListParams.for_values ListParams.for_values_allow_offset
    ListParams.clamp_limit Query.get_query_int Query.get_query_bool Query.get_query_string
    Query.get_query_time Query.get_query_id Query.round_second Query.is_zero values lookup insert
    text_beq atoi parse_uint digits_value parse_bool Transactions.for_values parse_all
    Transactions.get_sort
typed_accepted = refl

for_values-IsParsed_example : Parsed.IsParsed env typed no_transactions typed_params
for_values-IsParsed_example =
    Parsed.for_values-IsParsed env no_transactions 0 typed typed_params typed_accepted

occurrences-for_value_chain_id_example :
    (Parsed.occurrences (codes "P") (for_value_chain_id env (some (codes "X")) (codes "P" ∷ [])) ≡ (
      if codes "X" == codes "P"
      then Parsed.at_least_once (Parsed.occurrences (codes "P") (codes "P" ∷ []))
      else Parsed.occurrences (codes "P") (codes "P" ∷ [])))
    × (Parsed.first_or [] (for_value_chain_id env (some (codes "X")) (codes "P" ∷ [])) ≡ (
        if nat_beq (Parsed.occurrences (codes "X") (codes "P" ∷ [])) 0
        then codes "X"
        else Parsed.first_or [] (codes "P" ∷ [])))
    × (for_value_chain_id env
          (some (codes "X"))
          (for_value_chain_id env (some (codes "X")) (codes "P" ∷ []))
        ≡ for_value_chain_id env (some (codes "X")) (codes "P" ∷ []))
occurrences-for_value_chain_id_example =
    Parsed.occurrences-for_value_chain_id env (codes "X") (codes "P" ∷ []) (codes "P")

abbrev no_contracts : ListCTransactionsParams
no_contracts = record {
  list_params = no_params;
  c_addresses = [];
  c_addresses_to = [];
  c_addresses_from = [];
  hashes = [];
  sort = timestamp_asc;
  block_start = none;
  block_end = none;
}

abbrev contracts : ListCTransactionsParams
contracts = value_or no_contracts (CTransactions.for_values env no_contracts 0 limited)

contracts_accepted : CTransactions.for_values env no_contracts 0 limited ≡ ok contracts
unfolding ListParams.for_values_offset ListParams.for_values ListParams.for_values_allow_offset
    ListParams.clamp_limit Query.get_query_int Query.get_query_bool Query.get_query_string
    Query.get_query_time Query.get_query_id Query.round_second Query.is_zero values lookup insert
    text_beq atoi parse_uint digits_value parse_bool CTransactions.for_values
    CTransactions.last_number with_0x Transactions.get_sort
contracts_accepted = refl

no_block_yet : values limited (key_text block_start) ≡ []
unfolding values lookup text_beq
no_block_yet = refl

seven : big_int_set_string (codes "7") ≡ some (pos 7)
unfolding big_int_set_string digits_value
seven = refl

none_ne_some : {A B : Type 0} {a : A} → none ≡ some a → B
none_ne_some e = cc

cache_key-Unkeyed_example :
    (p2 : ListCTransactionsParams) × (CTransactions.for_values env no_contracts 0
        (insert (key_text block_start) (codes "7" ∷ []) limited)
      ≡ ok p2)
    × Asks env (codes "7") block_start contracts p2
    × (CTransactions.cache_key env p2 ≡ CTransactions.cache_key env contracts)
cache_key-Unkeyed_example =
    cache_key-Unkeyed env no_contracts 0 limited block_start (codes "7") contracts no_block_yet
      (pos 7, seven, λ e. none_ne_some e) contracts_accepted

abbrev no_outputs : ListOutputsParams
no_outputs = record { list_params = no_params; chain_ids = []; addresses = []; spent = none }

abbrev empty_spent : Values
empty_spent = (codes "spent", []) ∷ []

outputs_for_values-panics_iff_example :
    (outputs_for_values env no_outputs 0 empty_spent ≡ err index_panic) ↔ (
      (lookup (codes "spent") empty_spent ≡ some [])
      × ((l : ListParams) × (ListParams.for_values env 0 empty_spent ≡ ok l))
      × ((addresses : List Ident) × (parse_all
              (address_from_string env)
              (values empty_spent (codes "address"))
              []
            ≡ ok addresses)))
outputs_for_values-panics_iff_example = outputs_for_values-panics_iff env no_outputs 0 empty_spent
