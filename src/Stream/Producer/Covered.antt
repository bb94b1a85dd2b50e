-- ===== src/Stream/Producer/Covered.antt =====
-- No container is skipped: stream/producer_chain.go, whatever fails and whenever it stops.
use mathlib.Core.Path.{subst}
use axia_network_v2_magellan.Prelude.{
  ℕ, zero, suc, ◌+◌, ◌≤◌, ◌<◌, Bool, true, List, [], ◌∷◌, Option, none, some, All, length, ◌≡◌,
  refl, ap, ◌∙◌, ◌⊎◌, inl, inr, arith, Bool-cases, ltb, ltb→lt, ltb-false,
}
use axia_network_v2_magellan.Prelude.Text.{Text, codes}
use axia_network_v2_magellan.Prelude.Result.{Result, ok}
use axia_network_v2_magellan.Params.Query.{Ident}
use axia_network_v2_magellan.Db.Exec.{bind-ok, for_each, insert_into, lift, num, text, update}
use axia_network_v2_magellan.Db.Columns.{Row, where_key}
use axia_network_v2_magellan.Db.Persist.{exec_tolerant, is_duplicate_entry_error, tolerant}
use axia_network_v2_magellan.Db.Pool.{NodeIndex, TxPool, insert_tx_pool}
use axia_network_v2_magellan.Db.Always.{
  Always, bind-Always, exec_tolerant-Always, for_each-Always, lift-Always,
}
use axia_network_v2_magellan.Db.Queries.Accumulated.{query_node_index}
use axia_network_v2_magellan.Stream.Producer.{
  Container, Producer, System, index_row, msg_id, pool_id, row_of, store_container, update_tx_pool,
}

-- The containers from the place `i` on
abbrev pub window : (ℕ → Container) → ℕ → ℕ → List Container
window log i zero = []
window log i (suc n) = log i ∷ window log (i + 1) n

module _ {D : Type 0} (p : Producer D) (stored : Text → D → Bool) (saved : D → ℕ) where
  -- The rows of the pool stay, and so does the saved index.
  pub record Keeps (d d' : D) : Type 0 where
    pub rows : (id : Text) → stored id d ≡ true → stored id d' ≡ true
    pub index : saved d' ≡ saved d

  -- The rows of the pool stay, and the saved index may have become `n`.
  pub record Moves (n : ℕ) (d d' : D) : Type 0 where
    pub rows : (id : Text) → stored id d ≡ true → stored id d' ≡ true
    pub index : (saved d' ≡ saved d) ⊎ (saved d' ≡ n)

  -- The columns of the producer's own row of indexes
  abbrev pub own_row : Row
  own_row = (codes "instance", text p.node_instance) ∷ (codes "topic", text p.topic) ∷ []

  -- What the producer relies on of the node, whose index is `log`, and of the database: `stored` says
  -- whether the pool has a row with an id, and `saved` is the producer's index in the database. A
  -- statement that fails may have been run or not.
  pub record IsPool (log : ℕ → Container) : Type 0 where
    pub fetches :
        (idx n : ℕ) (d d' : D) (cs : List Container)
        → p.get_container_range idx n d ≡ (ok cs, d')
        → cs ≡ window log idx (length cs)
    pub fetch_keeps : (idx n : ℕ) (d : D) → Keeps d (p.get_container_range idx n d).1
    pub enqueue_keeps : (pool : TxPool) (d : D) → Keeps d (p.enqueue pool d)
    pub insert_keeps :
        (pairs : Row) (d : D) → Keeps d (p.session.exec (insert_into (codes "tx_pool") pairs) d).1
    pub inserts :
        (id : Text) (rest : Row) (d d' : D)
        → p.session.exec (insert_into (codes "tx_pool") ((codes "id", text id) ∷ rest)) d
          ≡ (none, d')
        → stored id d' ≡ true
    pub duplicates :
        (id e : Text) (rest : Row) (d d' : D)
        → p.session.exec (insert_into (codes "tx_pool") ((codes "id", text id) ∷ rest)) d
          ≡ (some e, d')
        → is_duplicate_entry_error e ≡ true
        → stored id d' ≡ true
    pub insert_index :
        (n : ℕ) (d : D)
        → Moves n d
            (p.session.exec
              (insert_into (codes "node_index") (
                (codes "instance", text p.node_instance)
                ∷ (codes "topic", text p.topic)
                ∷ (codes "idx", num n)
                ∷ []))
              d).1
    pub update_index :
        (n : ℕ) (d : D)
        → Moves n d
            (p.session.exec
              (update (codes "node_index") ((codes "idx", num n) ∷ []) (where_key own_row))
              d).1
    pub reads_index :
        (d : D) (row : NodeIndex)
        → query_node_index p.reads (index_row p 0) d ≡ ok row
        → row.idx ≡ saved d

  -- The container's row is in the pool.
  abbrev pub Pooled : D → Container → Type 0
  Pooled d c =
      (msg : Ident) × (id : Text) × (msg_id p c ≡ ok msg)
      × (pool_id p msg ≡ ok id)
      × (stored id d ≡ true)

  module _ (log : ℕ → Container) where
    -- The rows of the containers below a place are in the pool.
    abbrev pub Below : ℕ → D → Type 0
    Below n d = (i : ℕ) → i < n → Pooled d (log i)

    abbrev pub IsRunningBelow : Option ℕ → D → Type 0
    IsRunningBelow none d = Unit
    IsRunningBelow (some idx) d = Below idx d

    -- Each container below the saved index, and below the index in memory, is in the pool.
    pub record IsCovered (c : System p) : Type 0 where
      pub by_saved : Below (saved c.world) c.world
      pub by_running : IsRunningBelow c.running c.world

    module _ (pool : IsPool log) where
      pub Keeps-refl : (d : D) → Keeps d d
      Keeps-refl d = record { rows = λ id h. h; index = refl }

      pub Keeps-trans : (d d1 d2 : D) → Keeps d d1 → Keeps d1 d2 → Keeps d d2
      Keeps-trans d d1 d2 a b = record {
        rows = λ id h. b.rows id (a.rows id h);
        index = b.index ∙ a.index;
      }

      Pooled-later :
          (d d' : D) (c : Container)
          → ((id : Text) → stored id d ≡ true → stored id d' ≡ true)
          → Pooled d c
          → Pooled d' c
      Pooled-later d d' c rows (msg, id, m, e, h) = (msg, id, m, e, rows id h)

      pub Below-later :
          (n : ℕ) (d d' : D)
          → ((id : Text) → stored id d ≡ true → stored id d' ≡ true)
          → Below n d
          → Below n d'
      Below-later n d d' rows b i h = Pooled-later d d' (log i) rows (b i h)

      pub Below-le : (m n : ℕ) (d : D) → m ≤ n → Below n d → Below m d
      Below-le m n d le b i h = b i (omega (arith, le, h))

      pub store-Keeps : (c : Container) → Always Keeps Keeps-refl Keeps-trans (store_container p c)
      unfolding store_container update_tx_pool insert_tx_pool
      store-Keeps c =
          bind-Always Keeps Keeps-refl Keeps-trans _ _
            (lift-Always Keeps Keeps-refl Keeps-trans (msg_id p c))
            (λ msg.
              bind-Always Keeps Keeps-refl Keeps-trans _ _
                (lift-Always Keeps Keeps-refl Keeps-trans (pool_id p msg))
                (λ id.
                  bind-Always Keeps Keeps-refl Keeps-trans _ _
                    (exec_tolerant-Always Keeps Keeps-refl Keeps-trans p.session (codes "tx_pool") _
                      (pool.insert_keeps _))
                    (λ u d. pool.enqueue_keeps _ d)))

      by_error :
          (id : Text) (rest : Row) (d d1 d' : D) (e : Option Text)
          → p.session.exec (insert_into (codes "tx_pool") ((codes "id", text id) ∷ rest)) d
            ≡ (e, d1)
          → tolerant p.session (codes "tx_pool") e d1 ≡ (ok tt, d')
          → stored id d' ≡ true
      unfolding tolerant
      by_error id rest d d1 d' none e h =
          subst (λ (x : Result Text Unit × D). stored id x.1 ≡ true) h (pool.inserts id rest d d1 e)
      by_error id rest d d1 d' (some x) e h = elim (Bool-cases (is_duplicate_entry_error x)) [
        | inl twice ↦
            subst (λ (y : Result Text Unit × D). stored id y.1 ≡ true) (rw twice at h)
              (pool.duplicates id x rest d d1 e twice)
        | inr other ↦ let h' = rw other at h in cc
      ]

      inserted :
          (id : Text) (rest : Row) (d d' : D)
          → exec_tolerant p.session
              (codes "tx_pool")
              (insert_into (codes "tx_pool") ((codes "id", text id) ∷ rest))
              d
            ≡ (ok tt, d')
          → stored id d' ≡ true
      unfolding exec_tolerant
      inserted id rest d d' h =
          let out =
            p.session.exec (insert_into (codes "tx_pool") ((codes "id", text id) ∷ rest)) d in
          by_error id rest d out.1 d' out.0 refl h

      store-Pooled : (c : Container) (d d' : D) → store_container p c d ≡ (ok tt, d') → Pooled d' c
      unfolding store_container update_tx_pool insert_tx_pool lift
      store-Pooled c d d' h =
          let (msg, d1, e1, h1) = bind-ok _ _ d h in
          let (id, d2, e2, h2) = bind-ok _ _ d1 h1 in
          let (u, d3, e3, h3) = bind-ok _ _ d2 h2 in
          (
            msg,
            id,
            ap (λ (x : Result Text Ident × D). x.0) e1,
            ap (λ (x : Result Text Text × D). x.0) e2,
            subst (λ (x : Result Text Unit × D). stored id x.1 ≡ true) h3
                ((pool.enqueue_keeps (row_of p c msg id) d3).rows id (inserted id _ d2 d3 e3)),
          )

      pub stores-Pooled :
          (cs : List Container) (d d' : D)
          → for_each (store_container p) cs d ≡ (ok tt, d')
          → All (Pooled d') cs
      unfolding for_each
      stores-Pooled [] d d' h = tt
      stores-Pooled (c ∷ cs) d d' h =
          let (u, d1, e1, h1) = bind-ok _ _ d h in
          let keeps : Keeps d1 (for_each (store_container p) cs d1).1 =
            for_each-Always Keeps Keeps-refl Keeps-trans (store_container p) cs store-Keeps d1 in
          (
            Pooled-later d1 d' c (subst (λ (x : Result Text Unit × D). Keeps d1 x.1) h1 keeps).rows
                (store-Pooled c d d1 e1),
            stores-Pooled cs d1 d' h1,
          )

      pub window-Below :
          (n idx : ℕ) (d : D) → Below idx d → All (Pooled d) (window log idx n) → Below (idx + n) d
      window-Below zero idx d b a = Below-le (idx + 0) idx d (omega arith) b
      window-Below (suc n) idx d b a =
          Below-le (idx + suc n) (idx + 1 + n) d (omega arith) (window-Below n (idx + 1) d upto a.1)
        where
          upto : Below (idx + 1) d
          upto i h = elim (Bool-cases (ltb i idx)) [
            | inl lower ↦ b i (ltb→lt i idx lower)
            | inr other ↦
                let same : idx ≡ i = omega (arith, ltb-false i idx other, h) in
                subst (λ (j : ℕ). Pooled d (log j)) same a.0
          ]
