-- ===== src/Params/CTransactions.antt =====
-- services/indexes/params/collections.go: the parameters of the list of contract-chain transactions.
pub mod Parsed
use axia_network_v2_magellan.Prelude.{
  ℕ, Bool, true, false, List, [], ◌∷◌, ◌++◌, Option, none, some, if◌then◌else◌, map,
}
use axia_network_v2_magellan.Prelude.Int.{ℤ}
use axia_network_v2_magellan.Prelude.Text.{Text, codes}
use axia_network_v2_magellan.Prelude.Result.{Result, ok, err, ◌>>=◌}
use axia_network_v2_magellan.Strconv.{big_int_set_string, has_prefix}
use axia_network_v2_magellan.Params.Query.{Error, Values, Env, values}
use axia_network_v2_magellan.Params.ListParams
use axia_network_v2_magellan.Params.ListParams.{ListParams, key_value}
use axia_network_v2_magellan.Params.Transactions.{TransactionSort, sort_string, get_sort}

pub record ListCTransactionsParams : Type 0 where
  pub list_params : ListParams
  pub c_addresses : List Text
  pub c_addresses_to : List Text
  pub c_addresses_from : List Text
  pub hashes : List Text
  pub sort : TransactionSort
  pub block_start : Option ℤ
  pub block_end : Option ℤ

-- `if !strings.HasPrefix(s, "0x") { s = "0x" + s }`
unfoldable pub with_0x : Text → Text
with_0x s = if has_prefix s (codes "0x") then s else codes "0x" ++ s

-- `for _, s := range strs { if nint.SetString(s, 10) { p.BlockStart = nint } }`
unfoldable pub last_number : List Text → Option ℤ → Option ℤ
last_number [] block = block
last_number (s ∷ strs) block =
    last_number strs (elim (big_int_set_string s) [ none ↦ block | some n ↦ some n ])

-- `ListCTransactionsParams.ForValues`, on the parameters `p` that it appends to.
unfoldable pub for_values :
    Env → ListCTransactionsParams → ℕ → Values → Result Error ListCTransactionsParams
for_values env p v q = do
  list_params ← ListParams.for_values env v q
  let address = λ (s : Text). env.to_lower (with_0x s)
  ok (record {
    list_params = list_params;
    sort = get_sort q;
    c_addresses = p.c_addresses ++ map address (values q (codes "address"));
    c_addresses_to = p.c_addresses_to ++ map address (values q (codes "toAddress"));
    c_addresses_from = p.c_addresses_from ++ map address (values q (codes "fromAddress"));
    block_start = last_number (values q (codes "blockStart")) p.block_start;
    block_end = last_number (values q (codes "blockEnd")) p.block_end;
    hashes = p.hashes ++ map with_0x (values q (codes "hash"));
  })

-- `ListCTransactionsParams.CacheKey`
unfoldable pub cache_key : Env → ListCTransactionsParams → List Text
cache_key env p =
    ListParams.cache_key env p.list_params
    ++ key_value (codes "sort") (sort_string p.sort)
      ∷ map (λ a. key_value (codes "address") a) p.c_addresses
