-- ===== src/Utils/IndexedList/Valid.antt =====
-- The list and the map of an `IndexedList` hold the same keys, each once, within the bound.
use axia_network_v2_magellan.Prelude.{
  ℕ, zero, suc, ◌+◌, ◌≤◌, ◌<◌, ◌≡◌, refl, ap, true, false, List, [], ◌∷◌, some, arith, ltb, is_some,
  length, take, if◌then◌else◌, Bool-cases, inl, inr, sym, ◌∙◌, ltb→lt, ltb-false, take_of_length-le,
  length-take,
}
use axia_network_v2_magellan.Prelude.Int.{ℤ, pos, negsuc}
use axia_network_v2_magellan.Prelude.Eq.{Eq, ◌==◌, elem}
use axia_network_v2_magellan.Prelude.Dict.{lookup, insert, lookup-insert, lookup-delete}
use axia_network_v2_magellan.Utils.IndexedList.{
  IndexedList, new_indexed_list, back, remove_back, exists, evict, evict_loop, push_front,
}

module _ {ℓ} {K : Type ℓ} ⦃e : Eq K⦄ where
  -- No key stands twice in a list.
  abbrev pub Distinct : List K → Type 0
  Distinct [] = Unit
  Distinct (x ∷ xs) = (elem x xs ≡ false) × Distinct xs

  elem-back : (xs : List K) (b : K) → back xs ≡ some b → elem b xs ≡ true
  unfolding elem back
  elem-back [] b h = ground arith
  elem-back (x ∷ []) b h = ground (arith, e.beq_iff x b)
  elem-back (x ∷ y ∷ xs) b h = ground (arith, elem-back (y ∷ xs) b h)

  -- Without its last key a list of distinct keys holds all its other keys.
  elem-remove_back :
      (xs : List K) (b k : K)
      → back xs ≡ some b
      → Distinct xs
      → elem k (remove_back xs) ≡ (if b == k then false else elem k xs)
  unfolding elem back remove_back
  elem-remove_back [] b k h d = ground arith
  elem-remove_back (x ∷ []) b k h d = ground arith
  elem-remove_back (x ∷ y ∷ xs) b k h d = ground (
    arith,
    elem-back (y ∷ xs) b h,
    elem-remove_back (y ∷ xs) b k h d.1,
    e.beq_iff x k,
    e.beq_iff b k,
  )

  elem-remove_back-false :
      (xs : List K) (k : K) → elem k xs ≡ false → elem k (remove_back xs) ≡ false
  unfolding elem remove_back
  elem-remove_back-false [] k h = refl
  elem-remove_back-false (x ∷ []) k h = refl
  elem-remove_back-false (x ∷ y ∷ xs) k h = ground (arith, elem-remove_back-false (y ∷ xs) k)

  remove_back-Distinct : (xs : List K) → Distinct xs → Distinct (remove_back xs)
  unfolding remove_back
  remove_back-Distinct [] d = d
  remove_back-Distinct (x ∷ []) d = tt
  remove_back-Distinct (x ∷ y ∷ xs) d =
      (elem-remove_back-false (y ∷ xs) x d.0, remove_back-Distinct (y ∷ xs) d.1)

module _ {ℓ} {A : Type ℓ} where
  take-remove_back : (n : ℕ) (xs : List A) → n < length xs → take n (remove_back xs) ≡ take n xs
  unfolding remove_back
  take-remove_back zero xs h = refl
  take-remove_back (suc n) [] h = refl
  take-remove_back (suc n) (x ∷ []) h = absurd (omega arith)
  take-remove_back (suc n) (x ∷ y ∷ xs) h = ap (◌∷◌ x) (take-remove_back n (y ∷ xs) (omega arith))

  length-remove_back : (xs : List A) → 0 < length xs → length (remove_back xs) + 1 ≡ length xs
  unfolding remove_back
  length-remove_back [] h = absurd (omega arith)
  length-remove_back (x ∷ []) h = omega arith
  length-remove_back (x ∷ y ∷ xs) h = omega (arith, length-remove_back (y ∷ xs))

  back-some : (xs : List A) → 0 < length xs → (b : A) × (back xs ≡ some b)
  unfolding back
  back-some [] h = absurd (omega arith)
  back-some (x ∷ []) h = (x, refl)
  back-some (x ∷ y ∷ xs) h = back-some (y ∷ xs) (omega arith)

module _ {ℓ} {K V : Type ℓ} ⦃e : Eq K⦄ where
  -- The map and the list agree on which keys are there.
  pub record IsConsistent (c : IndexedList K V) : Type ℓ where
    pub agree : (k : K) → is_some (lookup k c.entry_map) ≡ elem k c.entry_list
    pub distinct : Distinct c.entry_list

  pub record IsValid (c : IndexedList K V) : Type ℓ where
    pub consistent : IsConsistent c
    pub bounded : length c.entry_list ≤ c.max_size
    pub positive : 1 ≤ c.max_size

  -- What a call of `evict` does to a list that is not empty.
  record Evicted (c d : IndexedList K V) : Type ℓ where
    shorter : length d.entry_list + 1 ≡ length c.entry_list
    same_front : take c.max_size d.entry_list ≡ take c.max_size c.entry_list
    same_size : d.max_size ≡ c.max_size
    consistent : IsConsistent d

  evict_lem :
      (c : IndexedList K V)
      → IsConsistent c
      → c.max_size < length c.entry_list
      → Evicted c (evict c)
  unfolding evict
  evict_lem c i h =
      let (b, last) = back-some c.entry_list (omega arith) in
      rw (last, evict)
        (record {
          shorter = length-remove_back c.entry_list (omega arith);
          same_front = take-remove_back c.max_size c.entry_list h;
          same_size = refl;
          consistent = record {
            agree = λ k. ground (
              arith,
              lookup-delete b k c.entry_map,
              elem-remove_back c.entry_list b k last i.distinct,
              i.agree k,
            );
            distinct = remove_back-Distinct c.entry_list i.distinct;
          };
        })

  record Trimmed (c d : IndexedList K V) : Type ℓ where
    list : d.entry_list ≡ take c.max_size c.entry_list
    same_size : d.max_size ≡ c.max_size
    consistent : IsConsistent d

  evict_loop_lem :
      (fuel : ℕ) (c : IndexedList K V)
      → IsConsistent c
      → length c.entry_list ≤ fuel + c.max_size
      → Trimmed c (evict_loop fuel c)
  unfolding evict_loop
  evict_loop_lem zero c i h = record {
    list = sym (take_of_length-le c.max_size c.entry_list (omega arith));
    same_size = refl;
    consistent = i;
  }
  evict_loop_lem (suc fuel) c i h = elim (Bool-cases (ltb c.max_size (length c.entry_list))) [
    | inl more ↦
        let v = evict_lem c i (ltb→lt _ _ more) in
        let t =
          evict_loop_lem fuel (evict c) v.consistent (omega (arith, v.shorter, v.same_size)) in
        rw (more, evict_loop)
          (record {
            list = t.list ∙ ap (λ n. take n (evict c).entry_list) v.same_size ∙ v.same_front;
            same_size = t.same_size ∙ v.same_size;
            consistent = t.consistent;
          })
    | inr done ↦
        rw (done, evict_loop)
          (record {
            list = sym (take_of_length-le c.max_size c.entry_list (ltb-false _ _ done));
            same_size = refl;
            consistent = i;
          })
  ]

  -- The state of `push_front` before its loop.
  abbrev pushed : IndexedList K V → K → V → IndexedList K V
  pushed c key val = record c {
    entry_list = key ∷ c.entry_list;
    entry_map = insert key val c.entry_map;
  }

  insert-IsConsistent :
      (c : IndexedList K V) (key : K) (val : V)
      → IsConsistent c
      → exists c key ≡ false
      → IsConsistent (pushed c key val)
  unfolding elem exists
  insert-IsConsistent c key val i h = record {
    agree = λ k. ground (arith, lookup-insert key k val c.entry_map, i.agree k);
    distinct = (sym (i.agree key) ∙ h, i.distinct);
  }

  pub exists-eq-elem : (c : IndexedList K V) (k : K) → IsValid c → exists c k ≡ elem k c.entry_list
  unfolding exists
  exists-eq-elem c k v = v.consistent.agree k

  push_front_new :
      (c : IndexedList K V) (key : K) (val : V)
      → IsValid c
      → exists c key ≡ false
      → Trimmed (pushed c key val) (push_front key val c)
  unfolding push_front
  push_front_new c key val v new =
      let t =
        evict_loop_lem (suc (length c.entry_list)) (pushed c key val)
          (insert-IsConsistent c key val v.consistent new) (omega arith) in
      rw (new, push_front) t

  -- What `push_front` leaves: nothing new for a key that is there, else the key in front and the
  -- last keys beyond `max_size` gone.
  pub push_front-list :
      (c : IndexedList K V) (key : K) (val : V)
      → IsValid c
      → (push_front key val c).entry_list
        ≡ (if elem key c.entry_list then c.entry_list else take c.max_size (key ∷ c.entry_list))
  push_front-list c key val v = elim (Bool-cases (exists c key)) [
    | inl old ↦
        rw (sym (exists-eq-elem c key v) ∙ old) (unfold push_front in rw (old, push_front) refl)
    | inr new ↦ rw (sym (exists-eq-elem c key v) ∙ new) (push_front_new c key val v new).list
  ]

  pub push_front-size :
      (c : IndexedList K V) (key : K) (val : V)
      → IsValid c
      → (push_front key val c).max_size ≡ c.max_size
  push_front-size c key val v = elim (Bool-cases (exists c key)) [
    | inl old ↦ unfold push_front in rw (old, push_front) refl
    | inr new ↦ (push_front_new c key val v new).same_size
  ]

  -- On a list that agrees with its map, has no key twice, and is within a positive `max_size`,
  -- `push_front` leaves such a list.
  pub push_front-IsValid :
      (c : IndexedList K V) (key : K) (val : V) → IsValid c → IsValid (push_front key val c)
  push_front-IsValid c key val v = elim (Bool-cases (exists c key)) [
    | inl old ↦ unfold push_front in rw (old, push_front) v
    | inr new ↦
        let t = push_front_new c key val v new in
        record {
          consistent = t.consistent;
          bounded =
              rw (t.list, t.same_size) (omega (arith, length-take c.max_size (key ∷ c.entry_list)));
          positive = rw t.same_size v.positive;
        }
  ]

  -- A new list is valid, whatever size is asked for.
  pub new_indexed_list-IsValid : (n : ℤ) → IsValid (new_indexed_list {K = K} {V = V} n)
  unfolding new_indexed_list elem lookup
  new_indexed_list-IsValid n = record {
    consistent = record { agree = λ k. refl; distinct = tt };
    bounded = omega arith;
    positive = clamped n;
  }
    where
      clamped : (n : ℤ) → 1 ≤ (new_indexed_list {K = K} {V = V} n).max_size
      clamped (pos n) = ground arith
      clamped (negsuc n) = omega arith
