-- ===== src/Stream/Pool/Facts.antt =====
-- What holds of the bounded list and of the workers of stream/consumers/indexer.go, from state to state.
use mathlib.Core.Path.{subst}
use axia_network_v2_magellan.Prelude.{ℕ, true, Option, some, nat_beq, ◌≡◌, inl, inr, Bool-cases}
use axia_network_v2_magellan.Prelude.Text.{Text, text_eq}
use axia_network_v2_magellan.Prelude.Result.{ok}
use axia_network_v2_magellan.Db.Exec.{Exec, Session}
use axia_network_v2_magellan.Db.Pool.{TxPool, update_tx_pool_status}
use axia_network_v2_magellan.Utils.IndexedList.{IndexedList, exists, push_front}
use axia_network_v2_magellan.Utils.IndexedList.Valid
use axia_network_v2_magellan.Utils.IndexedList.Pushed.{exists-push_front}
use axia_network_v2_magellan.Stream.Pool.{
  Place, Reach, Step, System, cleared, marked, next, processed, put_at, received, unseen, waiting,
}

module _ {D : Type 0} (s : Session D) (fsm : Text → Option (TxPool → Exec D Unit))
    (first : System D) where
  -- The processor of the row's topic has succeeded on it, in a state before `c`.
  pub record Done (row : TxPool) (c : System D) : Type 0 where
    pub processor : TxPool → Exec D Unit
    pub known : fsm row.topic ≡ some processor
    pub at : System D
    pub from_first : Reach s fsm first at
    pub succeeded : (processor row at.world).0 ≡ ok tt
    pub to_last : Reach s fsm at c

  -- And then the row was marked as processed, in a later state before `c`.
  pub record Handled (id : Text) (c : System D) : Type 0 where
    pub row : TxPool
    pub same_id : row.id ≡ id
    pub at : System D
    pub done : Done row at
    pub updated : (update_tx_pool_status s (record row { processed = 1 }) at.world).0 ≡ ok tt
    pub to_last : Reach s fsm at c

  abbrev pub Fits : System D → Place → Type 0
  Fits c waiting = Unit
  Fits c (received job) = Unit
  Fits c (unseen job) = Unit
  Fits c (cleared job) = Unit
  Fits c (processed job) = Done job.tx_pool c
  Fits c (marked job) = Handled job.tx_pool.id c

  -- What holds of a list and of the workers' places, seen from the state `c`
  pub record Facts (c : System D) (l : IndexedList Text Text) (place : ℕ → Place) : Type 0 where
    pub valid : Valid.IsValid l
    pub listed : (id : Text) → exists l id ≡ true → Handled id c
    pub places : (i : ℕ) → Fits c (place i)

module _ {D : Type 0} {s : Session D} {fsm : Text → Option (TxPool → Exec D Unit)}
    {first : System D} where
  pub Done-next :
      {row : TxPool} {c d : System D}
      → Step s fsm c d
      → Done s fsm first row c
      → Done s fsm first row d
  Done-next st h = record {
    processor = h.processor;
    known = h.known;
    at = h.at;
    from_first = h.from_first;
    succeeded = h.succeeded;
    to_last = next h.to_last st;
  }

  pub Handled-next :
      {id : Text} {c d : System D}
      → Step s fsm c d
      → Handled s fsm first id c
      → Handled s fsm first id d
  Handled-next st h = record {
    row = h.row;
    same_id = h.same_id;
    at = h.at;
    done = h.done;
    updated = h.updated;
    to_last = next h.to_last st;
  }

module _ {D : Type 0} {s : Session D} {fsm : Text → Option (TxPool → Exec D Unit)}
    (first : System D) where
  Fits-next :
      {c d : System D} (x : Place) → Step s fsm c d → Fits s fsm first c x → Fits s fsm first d x
  Fits-next waiting st h = tt
  Fits-next (received job) st h = tt
  Fits-next (unseen job) st h = tt
  Fits-next (cleared job) st h = tt
  Fits-next (processed job) st h = Done-next st h
  Fits-next (marked job) st h = Handled-next st h

module _ {D : Type 0} {s : Session D} {fsm : Text → Option (TxPool → Exec D Unit)}
    {first : System D} where
  pub Facts-next :
      {c d : System D} {l : IndexedList Text Text} {place : ℕ → Place}
      → Step s fsm c d
      → Facts s fsm first c l place
      → Facts s fsm first d l place
  Facts-next {place = place} st f = record {
    valid = f.valid;
    listed = λ id h. Handled-next st (f.listed id h);
    places = λ i. Fits-next first (place i) st (f.places i);
  }

  pub Facts-put :
      {c : System D} {l : IndexedList Text Text} {place : ℕ → Place} (i : ℕ) (x : Place)
      → Fits s fsm first c x
      → Facts s fsm first c l place
      → Facts s fsm first c l (put_at i x place)
  Facts-put i x h f = record {
    valid = f.valid;
    listed = f.listed;
    places = λ j. elim (Bool-cases (nat_beq i j)) [
      | inl same ↦ rw same h
      | inr other ↦ rw other (f.places j)
    ];
  }

  pub push-Facts :
      {c : System D} {l : IndexedList Text Text} {place : ℕ → Place} (id : Text)
      → Handled s fsm first id c
      → Facts s fsm first c l place
      → Facts s fsm first c (push_front id id l) place
  push-Facts {c} {l} id h f = record {
    valid = Valid.push_front-IsValid l id id f.valid;
    listed = λ j e. elim (exists-push_front l id j id f.valid e) [
      | inl same ↦ subst (λ k. Handled s fsm first k c) same h
      | inr old ↦ f.listed j old
    ];
    places = f.places;
  }
