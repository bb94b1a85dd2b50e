-- ===== src/Pvm/Writer/Atomic.antt =====
-- services/indexes/pvm/writer.go: `Consume` indexes a block whole or not at all.
use axia_network_v2_magellan.Prelude.{ℕ, List}
use axia_network_v2_magellan.Db.Transaction.{Connection}
use axia_network_v2_magellan.Db.Transaction.Atomic.{
  IsAtomic, IsIsolated, in_transaction-IsAtomic, unseen,
}
use axia_network_v2_magellan.Axc.Outputs.{Writer}
use axia_network_v2_magellan.Pvm.Node.{Platform}
use axia_network_v2_magellan.Pvm.Writer.Blocks.{consume, index_block}
use axia_network_v2_magellan.Pvm.Writer.Keeps.{index_block-Keeps}

module _ {D S : Type 0} (w : Writer D) (p : Platform) (conn : Connection D) (inside outside : D → S)
    (isolated : IsIsolated conn w.session inside outside) where
  -- `Consume` of a block is all or nothing, for the rows that other connections see, on a database that
  -- isolates a transaction: with an error they are what they were, also where statements of the block
  -- had run, and without one they are what `indexBlock` makes, without an error, of a state with the
  -- rows that were seen before.
  pub consume-IsAtomic :
      (body : List ℕ) (d : D)
      → IsAtomic inside outside (index_block w p body) d (consume w p conn body d)
  unfolding consume
  consume-IsAtomic body d =
      let instance closed = unseen conn w.session inside outside isolated in
      in_transaction-IsAtomic conn w.session inside outside isolated _
        (index_block-Keeps w p _ body) d
