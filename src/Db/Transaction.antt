-- ===== src/Db/Transaction.antt =====
-- The SQL transaction around the work of a consumer, as services/indexes/avm/writer.go, pvm/writer.go and
-- cvm/writer.go open it: `Begin`, the work, `Commit`, with the deferred `RollbackUnlessCommitted`.
pub mod Atomic
use axia_network_v2_magellan.Prelude.{Option, none, some}
use axia_network_v2_magellan.Prelude.Text.{Text}
use axia_network_v2_magellan.Prelude.Result.{Result, ok, err}
use axia_network_v2_magellan.Db.Exec.{Exec}

pub record Connection (D : Type 0) : Type 0 where
  pub begin : D → Option Text × D
  pub commit : D → Option Text × D
  pub rollback : D → D

module _ {D : Type 0} (conn : Connection D) where
  -- A transaction that is committed has nothing left to roll back.
  abbrev pub committed : Option Text × D → Result Text Unit × D
  committed (none, d) = (ok tt, d)
  committed (some e, d) = (err e, conn.rollback d)

  abbrev pub worked : Result Text Unit × D → Result Text Unit × D
  worked (ok u, d) = committed (conn.commit d)
  worked (err e, d) = (err e, conn.rollback d)

  abbrev pub begun : Exec D Unit → Option Text × D → Result Text Unit × D
  begun work (none, d) = worked (work d)
  begun work (some e, d) = (err e, d)

  unfoldable pub in_transaction : Exec D Unit → Exec D Unit
  in_transaction work d = begun work (conn.begin d)
