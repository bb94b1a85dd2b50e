-- ===== src/Tests/Producing.antt =====
-- A producer with a pool in memory, and a node that gives two containers at a time.
use mathlib.Core.Path.{subst}
use axia_network_v2_magellan.Prelude.{
  ℕ, Bool, true, false, List, [], ◌∷◌, Option, none, some, if◌then◌else◌, length, ◌≡◌, refl, inl,
  inr, arith,
}
use axia_network_v2_magellan.Prelude.Dict.{lookup}
use axia_network_v2_magellan.Prelude.Eq.{◌==◌, elem}
use axia_network_v2_magellan.Prelude.Int.{pos}
use axia_network_v2_magellan.Prelude.Text.{Text, codes, text_eq, text_beq, text_beq_iff}
use axia_network_v2_magellan.Prelude.Result.{Result, ok}
use axia_network_v2_magellan.Db.Exec
use axia_network_v2_magellan.Db.Exec.{for_each, Stmt, insert_into, num, text, update}
use axia_network_v2_magellan.Db.Columns.{Row}
use axia_network_v2_magellan.Db.Pool.{
  NodeIndex, insert_node_index, insert_tx_pool, update_node_index,
}
use axia_network_v2_magellan.Db.Persist.{exec_strict, exec_tolerant, strict, tolerant, upsert}
use axia_network_v2_magellan.Axc.Outputs.{compute_id}
use axia_network_v2_magellan.Db.Queries.Accumulated.{query_node_index}
use axia_network_v2_magellan.Stream.Producer.{
  Container, Producer, Reach, System, here, new_container, next, process_next_message, processed,
  processes, started, starts, get_index, store_container, store_containers, update_tx_pool,
}
use axia_network_v2_magellan.Stream.Producer.Covered.{IsCovered, IsPool, Keeps, window}
use axia_network_v2_magellan.Stream.Producer.Reached.{world-IsCovered}
use axia_network_v2_magellan.Tests.Setting.{node}
use axia_network_v2_magellan.Tests.DbRows.{first_text}

-- The ids of the rows of the pool, and the saved index
abbrev World : Type 0
World = List Text × ℕ

abbrev add : Option Text → World → World
add none d = d
add (some id) d = (id ∷ d.0, d.1)

abbrev moved : Row → World → World
moved ((c, num n) ∷ sets) d = (d.0, n)
moved other d = d

abbrev run : Stmt → World → Option Text × World
run (insert_into t pairs) d = (none, if t == codes "tx_pool" then add (first_text pairs) d else d)
run (update t sets conds) d = (none, if t == codes "node_index" then moved sets d else d)

abbrev containers : ℕ → Container
containers i = record { id = i ∷ []; bytes = 7 ∷ i ∷ []; timestamp = pos 0 }

abbrev producer : Producer World
producer = record {
  session = record { exec = run; now = λ d. record { sec = pos 0; nsec = 0 } };
  reads = record { load_one = λ t columns conds d. ok ((codes "idx", num d.1) ∷ []) };
  node = node;
  get_container_range = λ idx n d. (ok (window containers idx 2), d);
  enqueue = λ pool d. d;
  network_id = 1;
  chain_id = codes "X";
  node_instance = codes "here";
  topic = codes "1-X-decisions";
  is_axchain = false;
  perform_updates = false;
}

abbrev stored : Text → World → Bool
stored id d = elem id d.0

abbrev saved : World → ℕ
saved d = d.1

abbrev Kept : World → World → Type 0
Kept = Keeps producer stored saved

kept : (d : World) → Kept d d
kept d = record { rows = λ id h. h; index = refl }

add-Keeps : (o : Option Text) (d : World) → Kept d (add o d)
unfolding elem
add-Keeps none d = kept d
add-Keeps (some id) d = record { rows = λ j h. ground (arith, h); index = refl }

elem_front : (id : Text) (l : List Text) → elem id (id ∷ l) ≡ true
unfolding elem
elem_front id l = ground (arith, text_beq_iff id id)

range_of :
    (idx : ℕ) (cs : List Container) (d d' : World)
    → ◌≡◌ {A = Result Text (List Container) × World} (ok (window containers idx 2), d) (ok cs, d')
    → cs ≡ window containers idx (length cs)
range_of idx cs d d' h =
    let q : window containers idx 2 ≡ cs = cc in
    subst (λ (l : List Container). l ≡ window containers idx (length l)) q refl

index_of :
    (d : World) (row : NodeIndex)
    → query_node_index producer.reads
        (record { instance = codes "here"; topic = codes "1-X-decisions"; idx = 0 })
        d
      ≡ ok row
    → row.idx ≡ d.1
unfolding query_node_index lookup text_beq
index_of d row h = cc

producer-IsPool : IsPool producer stored saved containers
unfolding text_beq
producer-IsPool = record {
  fetches = λ idx n d d' cs h. range_of idx cs d d' h;
  fetch_keeps = λ idx n d. kept d;
  enqueue_keeps = λ pool d. kept d;
  insert_keeps = λ pairs d. add-Keeps (first_text pairs) d;
  inserts = λ id rest d d' h.
      subst (λ (x : Option Text × World). elem id x.1.0 ≡ true) h (elem_front id d.0);
  duplicates = λ id e rest d d' h twice. cc;
  insert_index = λ n d. record { rows = λ id h. h; index = inl refl };
  update_index = λ n d. record { rows = λ id h. h; index = inr refl };
  reads_index = λ d row h. index_of d row h;
}

abbrev empty : World
empty = ([], 0)

abbrev first : System producer
first = started producer (new_container producer empty)

first_running : first ≡ record { world = empty; running = some 0 }
unfolding new_container Exec.◌>>=◌ insert_node_index upsert exec_tolerant tolerant Exec.pure
    get_index query_node_index text_beq lookup
first_running = refl

-- The first two containers are in the pool, and the index is 2.
abbrev second : System producer
second = processed producer 0 (process_next_message producer 0 empty)

second_running : second.running ≡ some 2
unfolding process_next_message store_containers Exec.◌>>=◌ for_each store_container Exec.lift
    compute_id update_tx_pool insert_tx_pool exec_tolerant tolerant Exec.pure update_node_index
    exec_strict strict
second_running = refl

after_second : Reach producer Kept (record { world = empty; running = none }) second
after_second =
    next
      (subst (Reach producer Kept (record { world = empty; running = none })) first_running
        (next here (starts empty)))
      (processes empty 0)

world-IsCovered_example : IsCovered producer stored saved containers second
world-IsCovered_example =
    world-IsCovered producer stored saved containers producer-IsPool empty refl after_second
