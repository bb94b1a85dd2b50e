-- ===== src/Stream/Producer/Progress.antt =====
-- What one run of a producer of stream/producer_chain.go leaves below its indexes in the pool.
use mathlib.Core.Path.{subst}
use axia_network_v2_magellan.Prelude.{
  ℕ, ◌+◌, ◌%◌, ◌^◌, Bool, true, false, List, [], ◌∷◌, if◌then◌else◌, All, length, ◌≡◌, refl, sym,
  ◌∙◌, inl, inr, arith, Bool-cases,
}
use axia_network_v2_magellan.Prelude.Text.{Text, codes}
use axia_network_v2_magellan.Prelude.Result.{Result, ok, err}
use axia_network_v2_magellan.Db.Exec.{continue, for_each, num, pure, update, ◌>>=◌, ◌>>◌}
use axia_network_v2_magellan.Db.Persist.{exec_strict, upsert}
use axia_network_v2_magellan.Db.Columns.{where_key}
use axia_network_v2_magellan.Db.Pool.{insert_node_index, update_node_index}
use axia_network_v2_magellan.Db.Always.{
  Always, bind-Always, exec_strict-Always, exec_tolerant-Always, for_each-Always, pure-Always,
}
use axia_network_v2_magellan.Stream.Producer.{
  Container, Producer, after_fetch, index_not_ready, index_row, max_tx_read, process_next_message,
  store_container, store_containers,
}
use axia_network_v2_magellan.Stream.Producer.Covered.{
  own_row, Pooled, Below, Below-later, Below-le, IsPool, Keeps, Keeps-refl, Keeps-trans, Moves,
  store-Keeps, stores-Pooled, window, window-Below,
}

module _ {D : Type 0} (p : Producer D) (stored : Text → D → Bool) (saved : D → ℕ)
    (log : ℕ → Container) (pool : IsPool p stored saved log) where
  abbrev Lower : ℕ → D → Type 0
  Lower n d = Below p stored saved log n d

  abbrev Kept : D → D → Type 0
  Kept = Keeps p stored saved

  abbrev Moved : ℕ → D → D → Type 0
  Moved = Moves p stored saved

  later :
      (n : ℕ) (d d' : D)
      → ((id : Text) → stored id d ≡ true → stored id d' ≡ true)
      → Lower n d
      → Lower n d'
  later = Below-later p stored saved log pool

  moved-refl : (n : ℕ) (d : D) → Moved n d d
  moved-refl n d = record { rows = λ id h. h; index = inl refl }

  moved-trans : (n : ℕ) (d d1 d2 : D) → Moved n d d1 → Moved n d1 d2 → Moved n d d2
  moved-trans n d d1 d2 a b = record {
    rows = λ id h. b.rows id (a.rows id h);
    index = elim b.index [
      | inl same ↦ elim a.index [ inl same' ↦ inl (same ∙ same') | inr new ↦ inr (same ∙ new) ]
      | inr new ↦ inr new
    ];
  }

  -- What is covered stays covered, by a step that keeps the index or moves it to a covered one.
  pub kept-Lower : (d d' : D) → Kept d d' → Lower (saved d) d → Lower (saved d') d'
  kept-Lower d d' k b = subst (λ (n : ℕ). Lower n d') (sym k.index) (later (saved d) d d' k.rows b)

  pub moved-Lower :
      (n : ℕ) (d d' : D) → Moved n d d' → Lower (saved d) d → Lower n d → Lower (saved d') d'
  moved-Lower n d d' m b c = elim m.index [
    | inl same ↦ subst (λ (k : ℕ). Lower k d') (sym same) (later (saved d) d d' m.rows b)
    | inr new ↦ subst (λ (k : ℕ). Lower k d') (sym new) (later n d d' m.rows c)
  ]

  abbrev pub IsNextLower : Result Text ℕ × D → Type 0
  IsNextLower (ok n, d) = Lower n d
  IsNextLower (err e, d) = Unit

  -- An outcome of the work at the index `idx`
  pub record IsGood (idx : ℕ) (out : Result Text ℕ × D) : Type 0 where
    pub by_saved : Lower (saved out.1) out.1
    pub by_idx : Lower idx out.1
    pub by_next : IsNextLower out

  after_update :
      (idx n : ℕ) (d d' : D) (r : Result Text Unit)
      → Moved n d d'
      → Lower (saved d) d
      → Lower idx d
      → Lower n d
      → IsGood idx (continue r (λ u. pure n) d')
  unfolding pure
  after_update idx n d d' (ok u) m b i c = record {
    by_saved = moved-Lower n d d' m b c;
    by_idx = later idx d d' m.rows i;
    by_next = later n d d' m.rows c;
  }
  after_update idx n d d' (err e) m b i c = record {
    by_saved = moved-Lower n d d' m b c;
    by_idx = later idx d d' m.rows i;
    by_next = tt;
  }

  update-Moved : (n : ℕ) (d : D) → Moved n d (update_node_index p.session (index_row p n) d).1
  unfolding update_node_index
  update-Moved n =
      exec_strict-Always (Moved n) (moved-refl n) (moved-trans n) p.session (codes "node_index") _
        (pool.update_index n)

  after_stores :
      (idx : ℕ) (cs : List Container) (d d1 : D) (r : Result Text Unit)
      → for_each (store_container p) cs d ≡ (r, d1)
      → cs ≡ window log idx (length cs)
      → Kept d d1
      → Lower (saved d) d
      → Lower idx d
      → IsGood idx (
          continue r
            (λ u.
              update_node_index p.session (index_row p ((idx + length cs) % 2 ^ 64))
              >> pure ((idx + length cs) % 2 ^ 64))
            d1)
  unfolding ◌>>=◌
  after_stores idx cs d d1 (err e) h w k b i = record {
    by_saved = kept-Lower d d1 k b;
    by_idx = later idx d d1 k.rows i;
    by_next = tt;
  }
  after_stores idx cs d d1 (ok u) h w k b i =
      let n : ℕ = (idx + length cs) % 2 ^ 64 in
      let i' : Lower idx d1 = later idx d d1 k.rows i in
      let all = stores-Pooled p stored saved log pool cs d d1 h in
      let upto : Lower (idx + length cs) d1 =
        window-Below p stored saved log pool (length cs) idx d1 i'
          (subst (All (Pooled p stored saved d1)) w all) in
      let out = update_node_index p.session (index_row p n) d1 in
      after_update idx n d1 out.1 out.0 (update-Moved n d1) (kept-Lower d d1 k b) i'
        (Below-le p stored saved log pool n (idx + length cs) d1 (omega arith) upto)

  after_range :
      (idx : ℕ) (d d1 : D) (r : Result Text (List Container))
      → p.get_container_range idx max_tx_read d ≡ (r, d1)
      → Kept d d1
      → Lower (saved d) d
      → Lower idx d
      → IsGood idx (after_fetch p idx (r, d1))
  unfolding store_containers ◌>>=◌
  after_range idx d d1 (err e) h k b i = elim (Bool-cases (index_not_ready e)) [
    | inl later_on ↦ rw later_on (record {
      by_saved = kept-Lower d d1 k b;
      by_idx = later idx d d1 k.rows i;
      by_next = later idx d d1 k.rows i;
    })
    | inr other ↦
        rw other (record {
          by_saved = kept-Lower d d1 k b;
          by_idx = later idx d d1 k.rows i;
          by_next = tt;
        })
  ]
  after_range idx d d1 (ok []) h k b i = record {
    by_saved = kept-Lower d d1 k b;
    by_idx = later idx d d1 k.rows i;
    by_next = tt;
  }
  after_range idx d d1 (ok (c ∷ cs)) h k b i =
      let out = for_each (store_container p) (c ∷ cs) d1 in
      after_stores idx (c ∷ cs) d1 out.1 out.0 refl (pool.fetches idx max_tx_read d d1 (c ∷ cs) h)
        (for_each-Always Kept (Keeps-refl p stored saved log pool)
          (Keeps-trans p stored saved log pool) (store_container p) (c ∷ cs)
          (store-Keeps p stored saved log pool) d1)
        (kept-Lower d d1 k b) (later idx d d1 k.rows i)

  pub process-IsGood :
      (idx : ℕ) (d : D)
      → Lower (saved d) d
      → Lower idx d
      → IsGood idx (process_next_message p idx d)
  unfolding process_next_message
  process-IsGood idx d b i =
      let out = p.get_container_range idx max_tx_read d in
      after_range idx d out.1 out.0 refl (pool.fetch_keeps idx max_tx_read d) b i

  -- The producer's row of indexes is made if it is missing, and updated if updates are asked for.
  pub start-Moved :
      (d : D) → Moved 0 d (insert_node_index p.session (index_row p 0) p.perform_updates d).1
  unfolding insert_node_index upsert
  start-Moved =
      bind-Always (Moved 0) (moved-refl 0) (moved-trans 0) _ _
        (exec_tolerant-Always (Moved 0) (moved-refl 0) (moved-trans 0) p.session
          (codes "node_index") _ (pool.insert_index 0))
        (λ u. updated p.perform_updates)
    where
      updated :
          (b : Bool)
          → Always (Moved 0) (moved-refl 0) (moved-trans 0) (
              if b
              then exec_strict p.session (codes "node_index") (
                  update
                    (codes "node_index")
                    ((codes "idx", num 0) ∷ [])
                    (where_key (own_row p stored saved)))
              else pure tt)
      updated true =
          exec_strict-Always (Moved 0) (moved-refl 0) (moved-trans 0) p.session (codes "node_index")
            _ (pool.update_index 0)
      updated false = pure-Always (Moved 0) (moved-refl 0) (moved-trans 0) tt

  pub none_lower : (d : D) → Lower 0 d
  none_lower d i h = absurd (omega (arith, h))
