-- ===== src/Utils/IndexedList/Pushed.antt =====
-- What a push adds to the bounded list of utils/indexedlist.go.
use axia_network_v2_magellan.Prelude.{
  ℕ, zero, suc, Bool, true, false, List, [], ◌∷◌, if◌then◌else◌, take, ◌≡◌, sym, ap, ◌∙◌, ◌⊎◌, inl,
  inr, Bool-cases, arith,
}
use axia_network_v2_magellan.Prelude.Eq.{◌==◌, elem}
use axia_network_v2_magellan.Prelude.Text.{Text, text_eq, text_beq_iff}
use axia_network_v2_magellan.Utils.IndexedList.{IndexedList, exists, push_front}
use axia_network_v2_magellan.Utils.IndexedList.Valid

elem-take : (n : ℕ) (j : Text) (l : List Text) → elem j (take n l) ≡ true → elem j l ≡ true
unfolding elem
elem-take zero j l h = cc
elem-take (suc n) j [] h = h
elem-take (suc n) j (x ∷ l) h = ground (arith, elem-take n j l, h)

elem_pushed :
    (pushed : Bool) (n : ℕ) (k j : Text) (l : List Text)
    → elem j (if pushed then l else take n (k ∷ l)) ≡ true
    → (k ≡ j) ⊎ (elem j l ≡ true)
unfolding elem
elem_pushed true n k j l h = inr h
elem_pushed false n k j l h =
    let e : elem j (k ∷ l) ≡ true = elem-take n j (k ∷ l) h in
    elim (Bool-cases (k == j)) [
      | inl same ↦ inl ((text_beq_iff k j).0 same)
      | inr other ↦ inr (ground (arith, e, other))
    ]

-- Only the key that is pushed is new.
pub exists-push_front :
    (l : IndexedList Text Text) (k j v : Text)
    → Valid.IsValid l
    → exists (push_front k v l) j ≡ true
    → (k ≡ j) ⊎ (exists l j ≡ true)
exists-push_front l k j v valid h =
    let e : elem j (push_front k v l).entry_list ≡ true =
      sym (Valid.exists-eq-elem (push_front k v l) j (Valid.push_front-IsValid l k v valid)) ∙ h in
    let f = sym (ap (elem j) (Valid.push_front-list l k v valid)) ∙ e in
    elim (elem_pushed (elem k l.entry_list) l.max_size k j l.entry_list f) [
      | inl same ↦ inl same
      | inr old ↦ inr (Valid.exists-eq-elem l j valid ∙ old)
    ]
