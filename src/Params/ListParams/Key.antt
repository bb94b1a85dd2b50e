-- ===== src/Params/ListParams/Key.antt =====
-- The cache key of the common parameters tells requests apart.
use axia_network_v2_magellan.Prelude.{
  Bool, ◌≡◌, ◌↔◌, refl, ap, arith, [], ◌∷◌, ◌++◌, Option, none, some,
}
use axia_network_v2_magellan.Prelude.Text.{Text}
use axia_network_v2_magellan.Strconv.{format_bool}
use axia_network_v2_magellan.Strconv.RoundTrip.{Fits, itoa-injective}
use axia_network_v2_magellan.Params.Query.{Ident, Env}
use axia_network_v2_magellan.Params.ListParams.{ListParams, cache_key, id_key}

-- The numbers of the parameters are Go integers of 64 bits.
pub record IsMachine (p : ListParams) : Type 0 where
  pub limit : Fits p.limit
  pub offset : Fits p.offset
  pub start_sec : Fits p.start_time.sec
  pub end_sec : Fits p.end_time.sec

-- Two parameters agree on what is in the key, times by the second. Whether a time was given, and the
-- other values of the query, are not.
pub record SameKeyed (p p' : ListParams) : Type 0 where
  pub id : p.id ≡ p'.id
  pub limit : p.limit ≡ p'.limit
  pub offset : p.offset ≡ p'.offset
  pub start_sec : p.start_time.sec ≡ p'.start_time.sec
  pub end_sec : p.end_time.sec ≡ p'.end_time.sec
  pub query : p.query ≡ p'.query
  pub disable_counting : p.disable_counting ≡ p'.disable_counting

format_bool-injective : (a b : Bool) → format_bool a ≡ format_bool b → a ≡ b
format_bool-injective a b e = ground arith

id_key-cases :
    (env : Env) (i j : Option Ident) (a b c d e f a' b' c' d' e' f' : Text)
    → id_key env i ++ a ∷ b ∷ c ∷ d ∷ e ∷ f ∷ [] ≡ id_key env j ++ a' ∷ b' ∷ c' ∷ d' ∷ e' ∷ f' ∷ []
    → (id_key env i ≡ id_key env j)
      × (a ≡ a')
      × (b ≡ b')
      × (c ≡ c')
      × (d ≡ d')
      × (e ≡ e')
      × (f ≡ f')
id_key-cases env none none a b c d e f a' b' c' d' e' f' h = ground arith
id_key-cases env none (some j) a b c d e f a' b' c' d' e' f' h = cc
id_key-cases env (some i) none a b c d e f a' b' c' d' e' f' h = cc
id_key-cases env (some i) (some j) a b c d e f a' b' c' d' e' f' h = ground arith

-- If the text of an ID determines it, two requests have the same cache key exactly if they agree on the
-- ID, the limit, the offset, the text searched for, the seconds of both times, and whether to count. So
-- the key does not tell a request with no start or end time from one that gives the time that the first
-- one has by default.
pub cache_key-SameKeyed_iff :
    (env : Env) (p p' : ListParams)
    → ((i j : Ident) → env.id_string i ≡ env.id_string j → i ≡ j)
    → IsMachine p
    → IsMachine p'
    → (cache_key env p ≡ cache_key env p') ↔ SameKeyed p p'
unfolding cache_key
cache_key-SameKeyed_iff env p p' inj m m' = (
  λ h.
      let (ids, l, o, s, t, q, d) = id_key-cases env p.id p'.id _ _ _ _ _ _ _ _ _ _ _ _ h in
      record {
        id = same_id p.id p'.id ids;
        limit = itoa-injective p.limit p'.limit m.limit m'.limit (cc l);
        offset = itoa-injective p.offset p'.offset m.offset m'.offset (cc o);
        start_sec =
            itoa-injective p.start_time.sec p'.start_time.sec m.start_sec m'.start_sec (cc s);
        end_sec = itoa-injective p.end_time.sec p'.end_time.sec m.end_sec m'.end_sec (cc t);
        query = cc q;
        disable_counting = format_bool-injective p.disable_counting p'.disable_counting (cc d);
      },
  λ s. cc (s.id, s.limit, s.offset, s.start_sec, s.end_sec, s.query, s.disable_counting),
)
  where
    same_id : (i j : Option Ident) → id_key env i ≡ id_key env j → i ≡ j
    same_id none none e = refl
    same_id none (some j) e = cc
    same_id (some i) none e = cc
    same_id (some i) (some j) e = ap some (inj i j (cc e))
