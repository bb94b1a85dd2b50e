-- ===== src/Utils/TtlMap/Bucket.antt =====
-- What `Put` and the two passes of the expiry do to one bucket.
use axia_network_v2_magellan.Prelude.Text.{text_beq_iff}
use axia_network_v2_magellan.Prelude.{
  ℕ, ◌≡◌, refl, Bool, false, List, [], ◌∷◌, Option, none, some, arith, if◌then◌else◌,
}
use axia_network_v2_magellan.Prelude.Text.{Text, text_eq}
use axia_network_v2_magellan.Prelude.Int.{ℤ}
use axia_network_v2_magellan.Prelude.Eq.{◌==◌, elem}
use axia_network_v2_magellan.Prelude.Dict.{
  lookup, lookup-insert, lookup-delete, IsMap, insert-IsMap, delete-IsMap,
}
use axia_network_v2_magellan.Utils.TtlMap.{
  Item, Bucket, expired, put_item, put_bucket, collect, drop_key,
}

-- What is left of an entry if it is deleted when it has expired at `now`.
abbrev pub live : ℤ → Option Item → Option Item
live now none = none
live now (some it) = if expired now it then none else some it

pub lookup-drop_key :
    (now : ℤ) (k j : Text) (bm : Bucket)
    → lookup j (drop_key now k bm) ≡ (if k == j then live now (lookup j bm) else lookup j bm)
unfolding drop_key
lookup-drop_key now k j bm = ground (arith, text_beq_iff k j, lookup-delete k j bm)

pub drop_key-IsMap : (now : ℤ) (k : Text) (bm : Bucket) → IsMap bm → IsMap (drop_key now k bm)
unfolding drop_key
drop_key-IsMap now k bm h = ground (arith, delete-IsMap k bm h)

abbrev pub is_expired : ℤ → Option Item → Bool
is_expired now none = false
is_expired now (some it) = expired now it

-- A key is collected exactly when its entry has expired.
pub elem-collect :
    (now : ℤ) (bm : Bucket) (j : Text)
    → IsMap bm
    → elem j (collect now bm) ≡ is_expired now (lookup j bm)
unfolding collect lookup elem
elem-collect now [] j h = refl
elem-collect now ((k, it) ∷ bm) j h =
    ground (arith, text_beq_iff k j, elem-collect now bm j h.1, h.0)

pub lookup-put_bucket :
    (bm : Bucket) (k j : Text) (v : List ℕ) (ttl now : ℤ)
    → lookup j (put_bucket bm k v ttl now)
      ≡ (if k == j then some (put_item (lookup k bm) v ttl now) else lookup j bm)
unfolding put_bucket
lookup-put_bucket bm k j v ttl now = lookup-insert k j (put_item (lookup k bm) v ttl now) bm

pub put_bucket-IsMap :
    (bm : Bucket) (k : Text) (v : List ℕ) (ttl now : ℤ)
    → IsMap bm
    → IsMap (put_bucket bm k v ttl now)
unfolding put_bucket
put_bucket-IsMap bm k v ttl now h = insert-IsMap k (put_item (lookup k bm) v ttl now) bm h
