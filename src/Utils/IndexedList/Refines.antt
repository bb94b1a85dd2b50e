-- ===== src/Utils/IndexedList/Refines.antt =====
-- A run of pushes, against the list of keys that a reader of the code has in mind.
use axia_network_v2_magellan.Prelude.{
  ℕ, ◌≡◌, refl, ap₂, arith, List, [], ◌∷◌, length, take, if◌then◌else◌, ◌≤◌, ◌∙◌, ap, ℕ,
}
use axia_network_v2_magellan.Prelude.Int.{ℤ}
use axia_network_v2_magellan.Prelude.Eq.{Eq, elem}
use axia_network_v2_magellan.Utils.IndexedList.{
  IndexedList, new_indexed_list, exists, push_front, clamp_size,
}
use axia_network_v2_magellan.Utils.IndexedList.Valid.{
  IsValid, push_front-list, push_front-size, push_front-IsValid, new_indexed_list-IsValid,
  exists-eq-elem,
}

module _ {ℓ} {K V : Type ℓ} ⦃e : Eq K⦄ where
  -- The calls `PushFront(k, v)` of a run, in order.
  unfoldable pub push_all : List (K × V) → IndexedList K V → IndexedList K V
  push_all [] c = c
  push_all ((k, v) ∷ rest) c = push_all rest (push_front k v c)

  -- The specification: at most `n` keys, latest first; a key that is remembered keeps its place.
  unfoldable pub recent : ℕ → List (K × V) → List K → List K
  recent n [] l = l
  recent n ((k, v) ∷ rest) l = recent n rest (if elem k l then l else take n (k ∷ l))

  push_all-lem :
      (calls : List (K × V)) (c : IndexedList K V)
      → IsValid c
      → IsValid (push_all calls c)
        × ((push_all calls c).entry_list ≡ recent c.max_size calls c.entry_list)
        × ((push_all calls c).max_size ≡ c.max_size)
  unfolding push_all recent
  push_all-lem [] c h = (h, refl, refl)
  push_all-lem ((k, v) ∷ rest) c h =
      let (valid, list, size) = push_all-lem rest (push_front k v c) (push_front-IsValid c k v h) in
      (
        valid,
        list ∙ ap₂ (λ n l. recent n rest l) (push_front-size c k v h) (push_front-list c k v h),
        size ∙ push_front-size c k v h,
      )

  -- After any calls of `PushFront` on a new list, `Exists` is membership among the recent keys, and
  -- there are at most `max 1 max_size` of them.
  pub exists-push_all :
      (n : ℤ) (calls : List (K × V)) (k : K)
      → (exists (push_all calls (new_indexed_list n)) k ≡ elem k (recent (clamp_size n) calls []))
        × (length (recent (clamp_size n) calls []) ≤ clamp_size n)
  unfolding new_indexed_list
  exists-push_all n calls k =
      let c : IndexedList K V = new_indexed_list n in
      let (valid, list, size) = push_all-lem calls c (new_indexed_list-IsValid n) in
      (
        exists-eq-elem (push_all calls c) k valid ∙ ap (elem k) list,
        omega (arith, valid.bounded, size, ap length list),
      )
