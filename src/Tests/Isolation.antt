-- ===== src/Tests/Isolation.antt =====
-- A database in memory that isolates a transaction, and a block that is consumed on it.
use axia_network_v2_magellan.Prelude.{true, List, [], Option, none, some, ◌≡◌, refl, ap, sym}
use axia_network_v2_magellan.Prelude.Text.{Text, codes, text_eq}
use axia_network_v2_magellan.Db.Columns.{Row}
use axia_network_v2_magellan.Db.Exec.{Session, Stmt}
use axia_network_v2_magellan.Db.OneTable.{run}
use axia_network_v2_magellan.Db.Transaction.{Connection}
use axia_network_v2_magellan.Db.Transaction.Atomic.{IsAtomic, IsIsolated}
use axia_network_v2_magellan.Axc.Outputs.{Writer}
use axia_network_v2_magellan.Params.Query.{zero_time}
use axia_network_v2_magellan.Pvm.Writer.Blocks.{consume, index_block}
use axia_network_v2_magellan.Pvm.Writer.Atomic.{consume-IsAtomic}
use axia_network_v2_magellan.Tests.DbRows.{first_text, only_text}
use axia_network_v2_magellan.Tests.PvmBlocks.{platform}
use axia_network_v2_magellan.Tests.Setting.{noon, node}
use axia_network_v2_magellan.Tests.Writing.{axc}

abbrev Table : Type 0
Table = List (Text × Row)

-- The rows that are committed, and those of the transaction
abbrev Tables : Type 0
Tables = Table × Table

abbrev run_inside : Stmt → Tables → Option Text × Tables
run_inside st (out, within) =
    let (e, within') = run first_text only_text (codes "pvm_blocks") st within in
    (e, (out, within'))

abbrev tables : Session Tables
tables = record { exec = run_inside; now = λ d. zero_time }

abbrev connection : Connection Tables
connection = record {
  begin = λ d. (none, (d.0, d.0));
  commit = λ d. (none, (d.1, d.1));
  rollback = λ d. (d.0, d.0);
}

abbrev within : Tables → Table
within d = d.1

abbrev committed_rows : Tables → Table
committed_rows d = d.0

never_fails : {e : Text} {d d' : Tables} → connection.commit d ≡ (some e, d') → d'.0 ≡ d.0
never_fails h = cc

tables-IsIsolated : IsIsolated connection tables within committed_rows
tables-IsIsolated = record {
  begins = λ d d' h. sym (ap (λ (x : Option Text × Tables). x.1.1) h);
  begin_hides = λ d. refl;
  exec_hides = λ st d. refl;
  rollback_hides = λ d. refl;
  commits = λ d d' h. sym (ap (λ (x : Option Text × Tables). x.1.0) h);
  commit_fails = λ e d d' h. never_fails h;
}

abbrev block_writer : Writer Tables
block_writer = record {
  chain_id = codes "X";
  axc_asset_id = axc;
  node = node;
  session = tables;
  ctx_time = noon;
  perform_updates = true;
}

consume-IsAtomic_example :
    IsAtomic within committed_rows
      (index_block block_writer platform (codes "blk"))
      ([], [])
      (consume block_writer platform connection (codes "blk") ([], []))
consume-IsAtomic_example =
    consume-IsAtomic block_writer platform connection within committed_rows tables-IsIsolated
      (codes "blk") ([], [])
