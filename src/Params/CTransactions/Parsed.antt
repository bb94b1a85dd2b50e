-- ===== src/Params/CTransactions/Parsed.antt =====
-- The addresses and hashes of a request, and what its cache key leaves out.
use mathlib.Core.List.{append-nil}
use mathlib.Core.Path.{subst}
use axia_network_v2_magellan.Prelude.Int.{ℤ}
use axia_network_v2_magellan.Strconv.{big_int_set_string, has_prefix}
use axia_network_v2_magellan.Prelude.{
  if◌then◌else◌, Option, some, ◌≢◌, sym, ℕ, false, List, [], ◌∷◌, ◌++◌, map, All, ◌≡◌, refl, arith,
  ap, ◌∙◌,
}
use axia_network_v2_magellan.Prelude.Dict.{insert}
use axia_network_v2_magellan.Prelude.Eq.{◌==◌, beq_refl}
use axia_network_v2_magellan.Prelude.Text.{Text, codes, text_eq, text_beq}
use axia_network_v2_magellan.Prelude.Result.{ok, ◌>>=◌, >>=-eq-ok}
use axia_network_v2_magellan.Params.Query.{Values, Env, values}
use axia_network_v2_magellan.Params.ListParams
use axia_network_v2_magellan.Params.ListParams.{ListParams, for_values_offset}
use axia_network_v2_magellan.Params.ListParams.Reads.{values-insert, for_values_offset-Agree}
use axia_network_v2_magellan.Params.Transactions.{get_sort, first_sort}
use axia_network_v2_magellan.Params.CTransactions.{
  ListCTransactionsParams, with_0x, for_values, cache_key, last_number,
}

-- The keys of a query that the cache key of this listing does not read.
pub data Unkeyed : Type 0 where
  to_address from_address hash block_start block_end : Unkeyed

abbrev pub key_text : Unkeyed → Text
key_text to_address = codes "toAddress"
key_text from_address = codes "fromAddress"
key_text hash = codes "hash"
key_text block_start = codes "blockStart"
key_text block_end = codes "blockEnd"

-- Text with the prefix of a hexadecimal number
abbrev prefixed : Text → Text
prefixed s = if has_prefix s (codes "0x") then s else codes "0x" ++ s

-- What the request `p2` asks for beyond `p1`, by a value `s` of such a key
abbrev pub Asks : Env → Text → Unkeyed → ListCTransactionsParams → ListCTransactionsParams → Type 0
Asks env s to_address p1 p2 =
    p2.c_addresses_to ≡ p1.c_addresses_to ++ env.to_lower (prefixed s) ∷ []
Asks env s from_address p1 p2 =
    p2.c_addresses_from ≡ p1.c_addresses_from ++ env.to_lower (prefixed s) ∷ []
Asks env s hash p1 p2 = p2.hashes ≡ p1.hashes ++ prefixed s ∷ []
Asks env s block_start p1 p2 =
    (p2.block_start ≡ big_int_set_string s) × (p2.block_start ≢ p1.block_start)
Asks env s block_end p1 p2 = (p2.block_end ≡ big_int_set_string s) × (p2.block_end ≢ p1.block_end)

-- A block is a decimal number, and not the one that the request has without it.
abbrev pub IsNew : ListCTransactionsParams → Text → Unkeyed → Type 0
IsNew p s block_start = (n : ℤ) × (big_int_set_string s ≡ some n) × (p.block_start ≢ some n)
IsNew p s block_end = (n : ℤ) × (big_int_set_string s ≡ some n) × (p.block_end ≢ some n)
IsNew p s to_address = Unit
IsNew p s from_address = Unit
IsNew p s hash = Unit

abbrev keyed : List Text
keyed =
    codes "limit"
    ∷ codes "offset"
    ∷ codes "id"
    ∷ codes "startTime"
    ∷ codes "endTime"
    ∷ codes "disableCount"
    ∷ codes "query"
    ∷ codes "sort"
    ∷ codes "address"
    ∷ []

keyed-differ : (u : Unkeyed) → All (λ j. (key_text u == j) ≡ false) keyed
unfolding text_beq
keyed-differ to_address = ground arith
keyed-differ from_address = ground arith
keyed-differ hash = ground arith
keyed-differ block_start = ground arith
keyed-differ block_end = ground arith

values-All :
    (q : Values) (k : Text) (vs js : List Text)
    → All (λ j. (k == j) ≡ false) js
    → All (λ j. values (insert k vs q) j ≡ values q j) js
values-All q k vs [] h = tt
values-All q k vs (j ∷ js) h = (values-insert q k j vs ∙ ground arith, values-All q k vs js h.1)

values_self : (q : Values) (k : Text) (vs : List Text) → values (insert k vs q) k ≡ vs
values_self q k vs = values-insert q k k vs ∙ ground (arith, beq_refl k)

module _ (env : Env) (p : ListCTransactionsParams) (v : ℕ) (q : Values) (u : Unkeyed)
    (vs : List Text) where
  abbrev asked : Values
  asked = insert (key_text u) vs q

  get_sort-asked : get_sort asked ≡ get_sort q
  unfolding get_sort
  get_sort-asked =
      ap first_sort (values-All q (key_text u) vs keyed (keyed-differ u)).1.1.1.1.1.1.1.0

  list_params-asked :
      ListParams.for_values env v asked
      ≡ (ListParams.for_values env v q >>= λ l. ok (record l { values = asked }))
  unfolding ListParams.for_values
  list_params-asked =
      let a = values-All q (key_text u) vs keyed (keyed-differ u) in
      for_values_offset-Agree env v q asked false (record {
        limit = a.0;
        offset = a.1.0;
        id = a.1.1.0;
        start_time = a.1.1.1.0;
        end_time = a.1.1.1.1.0;
        disable_count = a.1.1.1.1.1.0;
        query = a.1.1.1.1.1.1.0;
      })

  address_asked : values asked (codes "address") ≡ values q (codes "address")
  address_asked = (values-All q (key_text u) vs keyed (keyed-differ u)).1.1.1.1.1.1.1.1.0

-- The parameters of the query with the added values, when `l` are the common ones.
abbrev parsed : Env → ListCTransactionsParams → Values → ListParams → ListCTransactionsParams
parsed env p q l = record {
  list_params = l;
  sort = get_sort q;
  c_addresses = p.c_addresses ++ map (λ s. env.to_lower (with_0x s)) (values q (codes "address"));
  c_addresses_to =
      p.c_addresses_to ++ map (λ s. env.to_lower (with_0x s)) (values q (codes "toAddress"));
  c_addresses_from =
      p.c_addresses_from ++ map (λ s. env.to_lower (with_0x s)) (values q (codes "fromAddress"));
  block_start = last_number (values q (codes "blockStart")) p.block_start;
  block_end = last_number (values q (codes "blockEnd")) p.block_end;
  hashes = p.hashes ++ map with_0x (values q (codes "hash"));
}

last_number-some :
    (s : Text) (n : ℤ) (old : Option ℤ)
    → big_int_set_string s ≡ some n
    → last_number (s ∷ []) old ≡ some n
unfolding last_number
last_number-some s n old e = ground (arith, e)

last_number-none : (vs : List Text) (old : Option ℤ) → vs ≡ [] → last_number vs old ≡ old
unfolding last_number
last_number-none vs old e = rw e refl

added :
    {A : Type 0} (f : Text → A) (l : List A) (s : Text) (vs : List Text)
    → vs ≡ []
    → l ++ f s ∷ [] ≡ (l ++ map f vs) ++ f s ∷ []
added f l s vs e = rw (e, append-nil) refl

-- A new number in place of the one that was there
replaced :
    (s : Text) (old : Option ℤ) (vs : List Text)
    → vs ≡ []
    → (n : ℤ) × (big_int_set_string s ≡ some n) × (old ≢ some n)
    → (last_number (s ∷ []) old ≡ big_int_set_string s)
      × (last_number (s ∷ []) old ≢ last_number vs old)
replaced s old vs none_yet (n, e, other) =
    let new = last_number-some s n old e in
    let same = last_number-none vs old none_yet in
    (new ∙ sym e, λ h. other (sym same ∙ sym h ∙ new))

parsed-Asks :
    (env : Env) (p : ListCTransactionsParams) (q : Values) (l l' : ListParams) (s : Text)
    (u : Unkeyed)
    → values q (key_text u) ≡ []
    → IsNew p s u
    → Asks env s u (parsed env p q l) (parsed env p (insert (key_text u) (s ∷ []) q) l')
unfolding with_0x
parsed-Asks env p q l l' s to_address none_yet new =
    rw (values_self q (codes "toAddress") (s ∷ []))
      (added (λ t. env.to_lower (with_0x t)) p.c_addresses_to s _ none_yet)
parsed-Asks env p q l l' s from_address none_yet new =
    rw (values_self q (codes "fromAddress") (s ∷ []))
      (added (λ t. env.to_lower (with_0x t)) p.c_addresses_from s _ none_yet)
parsed-Asks env p q l l' s hash none_yet new =
    rw (values_self q (codes "hash") (s ∷ [])) (added with_0x p.hashes s _ none_yet)
parsed-Asks env p q l l' s block_start none_yet new =
    rw (values_self q (codes "blockStart") (s ∷ [])) (replaced s p.block_start _ none_yet new)
parsed-Asks env p q l l' s block_end none_yet new =
    rw (values_self q (codes "blockEnd") (s ∷ [])) (replaced s p.block_end _ none_yet new)

-- For an accepted query that has no value for one of these keys: with one value for it, which for a
-- block is a decimal number other than the one that is there, it is accepted too, asks for one more
-- address or hash, or for another block, and has the same cache key.
pub cache_key-Unkeyed :
    (env : Env) (p : ListCTransactionsParams) (v : ℕ) (q : Values) (u : Unkeyed) (s : Text)
    (p1 : ListCTransactionsParams)
    → values q (key_text u) ≡ []
    → IsNew p s u
    → for_values env p v q ≡ ok p1
    → (p2 : ListCTransactionsParams) × (for_values env p v (insert (key_text u) (s ∷ []) q) ≡ ok p2)
      × Asks env s u p1 p2
      × (cache_key env p2 ≡ cache_key env p1)
unfolding for_values cache_key ListParams.cache_key
cache_key-Unkeyed env p v q u s p1 none_yet new h =
    let (l, accepted, e) = >>=-eq-ok (ListParams.for_values env v q) _ h in
    let q' = insert (key_text u) (s ∷ []) q in
    let l' = record l { values = q' } in
    let first : parsed env p q l ≡ p1 = cc e in
    (
      parsed env p q' l',
      rw (list_params-asked env p v q u (s ∷ []), accepted) refl,
      subst (λ x. Asks env s u x (parsed env p q' l')) first
          (parsed-Asks env p q l l' s u none_yet new),
      cc (e, get_sort-asked env p v q u (s ∷ []), address_asked env p v q u (s ∷ [])),
    )
