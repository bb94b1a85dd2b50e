-- ===== src/Db/Transaction/Atomic.antt =====
-- A SQL transaction is all or nothing, for work that only runs statements: the shape of `Consume` in the
-- writers of services/indexes.
use axia_network_v2_magellan.Prelude.{Option, none, some, ◌≡◌, refl, ◌∙◌}
use axia_network_v2_magellan.Prelude.Text.{Text}
use axia_network_v2_magellan.Prelude.Result.{Result, ok, err}
use axia_network_v2_magellan.Db.Exec.{Exec, Session, Stmt}
use axia_network_v2_magellan.Db.Keeps.{IsClosed, Keeps}
use axia_network_v2_magellan.Db.Transaction.{Connection, begun, committed, in_transaction, worked}

-- What the code relies on of a database: a transaction sees the rows `inside`, the others those of
-- `outside`, and those only change when it is committed.
pub record IsIsolated {D S : Type 0} (conn : Connection D) (s : Session D) (inside outside : D → S)
    : Type 0 where
  pub begins : (d d' : D) → conn.begin d ≡ (none, d') → inside d' ≡ outside d
  pub begin_hides : (d : D) → outside (conn.begin d).1 ≡ outside d
  pub exec_hides : (st : Stmt) (d : D) → outside (s.exec st d).1 ≡ outside d
  pub rollback_hides : (d : D) → outside (conn.rollback d) ≡ outside d
  pub commits : (d d' : D) → conn.commit d ≡ (none, d') → outside d' ≡ inside d
  pub commit_fails : (e : Text) (d d' : D) → conn.commit d ≡ (some e, d') → outside d' ≡ outside d

-- With an error the others see the rows as they were. Without one, they see what the whole of the work
-- makes of the rows that they saw before.
abbrev pub IsAtomic :
    {D S : Type 0} → (D → S) → (D → S) → Exec D Unit → D → Result Text Unit × D → Type 0
IsAtomic inside outside work d (err e, d') = outside d' ≡ outside d
IsAtomic {D} inside outside work d (ok u, d') =
    (first : D) × (last : D) × (inside first ≡ outside d)
    × (work first ≡ (ok tt, last))
    × (outside d' ≡ inside last)

-- The others see the same rows before and after.
abbrev pub Unseen : {D S : Type 0} → (D → S) → D → D → Type 0
Unseen outside d d' = outside d' ≡ outside d

pub unseen :
    {D S : Type 0} (conn : Connection D) (s : Session D) (inside outside : D → S)
    → IsIsolated conn s inside outside
    → IsClosed s (Unseen outside)
unseen conn s inside outside isolated = record {
  same = λ d. refl;
  trans = λ d d1 d2 h h'. h' ∙ h;
  runs = isolated.exec_hides;
}

module _ {D S : Type 0} (conn : Connection D) (s : Session D) (inside outside : D → S)
    (isolated : IsIsolated conn s inside outside) (work : Exec D Unit)
    (hides : Keeps s (Unseen outside) work) where
  after_commit :
      (d d1 d2 d3 : D) (e : Option Text)
      → conn.commit d2 ≡ (e, d3)
      → inside d1 ≡ outside d
      → work d1 ≡ (ok tt, d2)
      → outside d2 ≡ outside d
      → IsAtomic inside outside work d (committed conn (e, d3))
  after_commit d d1 d2 d3 none h i w k = (d1, d2, i, w, isolated.commits d2 d3 h)
  after_commit d d1 d2 d3 (some e) h i w k =
      isolated.rollback_hides d3 ∙ isolated.commit_fails e d2 d3 h ∙ k

  after_work :
      (d d1 d2 : D) (r : Result Text Unit)
      → work d1 ≡ (r, d2)
      → inside d1 ≡ outside d
      → outside d2 ≡ outside d
      → IsAtomic inside outside work d (worked conn (r, d2))
  after_work d d1 d2 (ok u) w i k =
      after_commit d d1 d2 (conn.commit d2).1 (conn.commit d2).0 refl i w k
  after_work d d1 d2 (err e) w i k = isolated.rollback_hides d2 ∙ k

  after_begin :
      (d d1 : D) (e : Option Text)
      → conn.begin d ≡ (e, d1)
      → outside d1 ≡ outside d
      → IsAtomic inside outside work d (begun conn work (e, d1))
  after_begin d d1 none h k =
      after_work d d1 (work d1).1 (work d1).0 refl (isolated.begins d d1 h) (hides.holds d1 ∙ k)
  after_begin d d1 (some e) h k = k

  pub in_transaction-IsAtomic :
      (d : D) → IsAtomic inside outside work d (in_transaction conn work d)
  unfolding in_transaction
  in_transaction-IsAtomic d =
      after_begin d (conn.begin d).1 (conn.begin d).0 refl (isolated.begin_hides d)
