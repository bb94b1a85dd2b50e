-- ===== src/Db/Keeps.antt =====
-- Code over db/dbmodel.go that changes the state by its statements only: it keeps to a relation that
-- every statement keeps to.
use axia_network_v2_magellan.Prelude.{Bool, true, false, List, if◌then◌else◌}
use axia_network_v2_magellan.Prelude.Text.{Text}
use axia_network_v2_magellan.Prelude.Result.{Result}
use axia_network_v2_magellan.Db.Columns.{Row}
use axia_network_v2_magellan.Db.Exec.{Exec, Session, Stmt, gets, lift, pure, ◌>>=◌, for_each}
use axia_network_v2_magellan.Db.Always.{
  bind-Always, exec_strict-Always, exec_tolerant-Always, for_each-Always, gets-Always, lift-Always,
  pure-Always, upsert-Always,
}
use axia_network_v2_magellan.Db.Persist.{exec_strict, exec_tolerant, upsert}

-- A relation of the states before and after that each statement of the session keeps to
pub record IsClosed {D : Type 0} (s : Session D) (R : D → D → Type 0) : Type 0 where
  pub same : (d : D) → R d d
  pub trans : (d d1 d2 : D) → R d d1 → R d1 d2 → R d d2
  pub runs : (st : Stmt) (d : D) → R d (s.exec st d).1

-- Whatever comes of it, the states before and after are in the relation.
pub record Keeps {D : Type 0} (s : Session D) (R : D → D → Type 0) {A : Type 0} (m : Exec D A)
    : Type 0 where
  pub holds : (d : D) → R d (m d).1

module _ {D : Type 0} {s : Session D} {R : D → D → Type 0} ⦃k : IsClosed s R⦄ where
  infixr 5 ◌then◌
  pub ◌then◌ :
      {A B : Type 0} {m : Exec D A} {f : A → Exec D B}
      → Keeps s R m
      → ((a : A) → Keeps s R (f a))
      → Keeps s R (m >>= f)
  h then h' = record { holds = bind-Always R k.same k.trans _ _ h.holds (λ a. (h' a).holds) }

  pub reads : {A : Type 0} (f : D → A) → Keeps s R (gets f)
  reads f = record { holds = gets-Always R k.same k.trans _ }

  pub lifts : {A : Type 0} (r : Result Text A) → Keeps s R (lift r)
  lifts r = record { holds = lift-Always R k.same k.trans _ }

  pub pures : {A : Type 0} (a : A) → Keeps s R (pure a)
  pures a = record { holds = pure-Always R k.same k.trans _ }

  pub each :
      {A : Type 0} {f : A → Exec D Unit} (l : List A)
      → ((a : A) → Keeps s R (f a))
      → Keeps s R (for_each f l)
  each l h = record { holds = for_each-Always R k.same k.trans _ _ (λ a. (h a).holds) }

  pub upserts :
      (t r : Text) (key rest sets : Row) (upd : Bool) → Keeps s R (upsert s t r key rest sets upd)
  upserts t r key rest sets upd = record {
    holds = upsert-Always R k.same k.trans s k.runs _ _ _ _ _ _;
  }

  pub tolerates : (t : Text) (st : Stmt) → Keeps s R (exec_tolerant s t st)
  tolerates t st = record { holds = exec_tolerant-Always R k.same k.trans s _ _ (k.runs _) }

  pub stricts : (t : Text) (st : Stmt) → Keeps s R (exec_strict s t st)
  stricts t st = record { holds = exec_strict-Always R k.same k.trans s _ _ (k.runs _) }

  pub either :
      {A : Type 0} (b : Bool) {m n : Exec D A}
      → Keeps s R m
      → Keeps s R n
      → Keeps s R (if b then m else n)
  either true h h' = h
  either false h h' = h'
