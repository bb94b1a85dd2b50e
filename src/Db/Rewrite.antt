-- ===== src/Db/Rewrite.antt =====
-- Writing a row again: what each insert method of db/dbmodel.go leaves in its table.
use axia_network_v2_magellan.Prelude.{
  ℕ, true, List, [], ◌∷◌, ◌++◌, Option, none, some, All, ◌≡◌, ◌≢◌, refl,
}
use axia_network_v2_magellan.Prelude.Dict.{lookup}
use axia_network_v2_magellan.Prelude.Text.{Text, codes, text_eq, text_beq}
use axia_network_v2_magellan.Prelude.Result.{Result, ok}
use axia_network_v2_magellan.Db.Exec.{Value, text, num, bytes, time, Session}
use axia_network_v2_magellan.Db.Rows.{Transactions, OutputsRedeeming, OutputAddresses, Rewards}
use axia_network_v2_magellan.Db.Columns.{
  Row, rewards_sets, transactions_columns, transactions_sets, outputs_redeeming_columns,
  outputs_redeeming_sets, signature_column,
}
use axia_network_v2_magellan.Db.Persist.{
  upsert, insert_transactions, insert_outputs_redeeming, insert_output_addresses, insert_rewards,
}
use axia_network_v2_magellan.Db.Table.{IsTable, Holds}
use axia_network_v2_magellan.Db.Stored.{upsert-Upserted}

-- Every column of `columns` is in the row with its value.
abbrev pub Stored : Row → Row → Type 0
Stored columns row = All (λ (p : Text × Value). lookup p.0 row ≡ some p.1) columns

Holds-Stored : (sets row columns : Row) → Holds sets row → Stored columns sets → Stored columns row
Holds-Stored sets row [] h all = tt
Holds-Stored sets row ((c, x) ∷ columns) h all =
    (h c x all.0, Holds-Stored sets row columns h all.1)

abbrev pub id_key : Text → Row
id_key i = (codes "id", text i) ∷ []

abbrev pub address_key : Text × Text → Row
address_key (o, a) = (codes "output_id", text o) ∷ (codes "address", text a) ∷ []

-- After the call: it succeeded, the row of the key is as `P` says, and the rows of other keys are
-- the ones before it.
abbrev pub Leaves :
    {D K : Type 0} → (K → D → Option Row) → K → D → (Row → Type 0) → Result Text Unit × D → Type 0
Leaves find k d P out =
    (out.0 ≡ ok tt)
    × (row : Row) × (find k out.1 ≡ some row)
    × P row
    × ((j : _) → j ≢ k → find j out.1 ≡ find j d)

upsert-Stored :
    {D K : Type 0} (s : Session D) (t reported : Text) (key : K → Row) (find : K → D → Option Row)
    (h : IsTable s t key find) (k : K) (rest sets : Row) (d : D) (columns : Row)
    → Stored columns sets
    → Leaves find k d (Stored columns) (upsert s t reported (key k) rest sets true d)
upsert-Stored s t reported key find h k rest sets d columns all =
    let u = upsert-Upserted s t reported key find h k rest sets d in
    (u.succeeds, u.row, u.found, Holds-Stored sets u.row columns u.sets_Holds all, u.others)

-- The column `c` of the key has the value `x` if the key is new, and its old value if it is not.
abbrev pub Sticks : {D K : Type 0} → (K → D → Option Row) → K → D → Text → Value → Row → Type 0
Sticks find k d c x row =
    (find k d ≡ none → lookup c row ≡ some x)
    × ((old : Row) → find k d ≡ some old → lookup c row ≡ lookup c old)

-- An upsert whose update does not write the column `c`.
upsert-Sticks :
    {D K : Type 0} (s : Session D) (t reported : Text) (key : K → Row) (find : K → D → Option Row)
    (h : IsTable s t key find) (k : K) (rest sets : Row) (d : D) (columns : Row) (c : Text)
    (x : Value)
    → Stored columns sets
    → lookup c sets ≡ none
    → lookup c (key k ++ rest) ≡ some x
    → Leaves find k d
        (λ row. Stored columns row × Sticks find k d c x row)
        (upsert s t reported (key k) rest sets true d)
upsert-Sticks s t reported key find h k rest sets d columns c x all p q =
    let u = upsert-Upserted s t reported key find h k rest sets d in
    (
      u.succeeds,
      u.row,
      u.found,
      (
        Holds-Stored sets u.row columns u.sets_Holds all,
        ((λ e. u.fills c x e p q), (λ old e. u.keeps old c e p)),
      ),
      u.others,
    )

module _ {D : Type 0} (s : Session D) where
  -- Where the transactions table has the laws of `IsTable`, an insert that is told to update leaves
  -- all of a transaction's columns in its row, whether the transaction is new or was stored before
  -- with other columns, and changes no other row.
  pub insert_transactions-Stored :
      (find : Text → D → Option Row) (h : IsTable s (codes "avm_transactions") id_key find)
      (v : Transactions) (d : D)
      → Leaves find v.id d (Stored (transactions_columns v)) (insert_transactions s v true d)
  unfolding insert_transactions lookup text_beq
  insert_transactions-Stored find h v d =
      let t = codes "avm_transactions" in
      upsert-Stored s t t id_key find h v.id (transactions_columns v) (transactions_sets v) d
        (transactions_columns v) (refl, (refl, (refl, (refl, (refl, (refl, (refl, (refl, tt))))))))

  -- Where the redeeming table has the laws of `IsTable`, an insert that is told to update leaves the
  -- columns of the redeeming input in its row and changes no other row, but the time of redemption
  -- is that of the first insert: it is stored in a new row, and stays as it was in an old one.
  pub insert_outputs_redeeming-Sticks :
      (find : Text → D → Option Row) (h : IsTable s (codes "avm_outputs_redeeming") id_key find)
      (v : OutputsRedeeming) (d : D)
      → Leaves find v.id d
          (λ row.
            Stored (outputs_redeeming_sets v) row
            × Sticks find v.id d (codes "redeemed_at") (time v.redeemed_at) row)
          (insert_outputs_redeeming s v true d)
  unfolding insert_outputs_redeeming lookup text_beq
  insert_outputs_redeeming-Sticks find h v d =
      let t = codes "avm_outputs_redeeming" in
      upsert-Sticks s t t id_key find h v.id (outputs_redeeming_columns v)
        (outputs_redeeming_sets v) d (outputs_redeeming_sets v) (codes "redeemed_at")
        (time v.redeemed_at) (refl, (refl, (refl, (refl, (refl, (refl, (refl, tt))))))) refl refl

  -- Where the rewards table has the laws of `IsTable`, indexing a reward again updates its row and no
  -- other, but does not make it unprocessed: `processed` is stored in a new row only.
  pub insert_rewards-Sticks :
      (find : Text → D → Option Row) (h : IsTable s (codes "rewards") id_key find) (v : Rewards)
      (d : D)
      → Leaves find v.id d
          (λ row.
            Stored (rewards_sets v) row
            × Sticks find v.id d (codes "processed") (num v.processed) row)
          (insert_rewards s v true d)
  unfolding insert_rewards lookup text_beq
  insert_rewards-Sticks find h v d =
      let t = codes "rewards" in
      upsert-Sticks s t t id_key find h v.id
        (rewards_sets v ++ ((codes "processed", num v.processed) ∷ [])) (rewards_sets v) d
        (rewards_sets v) (codes "processed") (num v.processed) (refl, (refl, (refl, (refl, tt))))
        refl refl

  -- What the signature column of an output's address is after an insert: the given signature, or, if
  -- none is given, the one stored before.
  abbrev pub Signed :
      (Text × Text → D → Option Row) → Text × Text → D → Option (List ℕ) → Row → Type 0
  Signed find k d none row =
      (old : Row)
      → find k d ≡ some old
      → lookup (codes "redeeming_signature") row ≡ lookup (codes "redeeming_signature") old
  Signed find k d (some sig) row =
      lookup (codes "redeeming_signature") row ≡ some (bytes (some sig))

  Signed-upsert :
      (find : Text × Text → D → Option Row)
      (h : IsTable s (codes "avm_output_addresses") address_key find) (o a : Text)
      (created updated : Value) (d : D) (sig : Option (List ℕ))
      → Leaves find
          (o, a)
          d
          (λ row.
            Stored ((codes "created_at", created) ∷ (codes "updated_at", updated) ∷ []) row
            × Signed find (o, a) d sig row)
          (upsert s
            (codes "avm_output_addresses")
            (codes "avm_output_addresses")
            (address_key (o, a))
            ((codes "created_at", created) ∷ (codes "updated_at", updated) ∷ signature_column sig)
            (signature_column sig
              ++ ((codes "updated_at", updated) ∷ (codes "created_at", created) ∷ []))
            true
            d)
  unfolding lookup text_beq
  Signed-upsert find h o a created updated d none =
      let t = codes "avm_output_addresses" in
      let rest : Row = (codes "created_at", created) ∷ (codes "updated_at", updated) ∷ [] in
      let sets : Row = (codes "updated_at", updated) ∷ (codes "created_at", created) ∷ [] in
      let u = upsert-Upserted s t t address_key find h (o, a) rest sets d in
      (
        u.succeeds,
        u.row,
        u.found,
        (
          Holds-Stored sets u.row rest u.sets_Holds (refl, (refl, tt)),
          (λ old e. u.keeps old (codes "redeeming_signature") e refl),
        ),
        u.others,
      )
  Signed-upsert find h o a created updated d (some sig) =
      let t = codes "avm_output_addresses" in
      let times : Row = (codes "updated_at", updated) ∷ (codes "created_at", created) ∷ [] in
      let rest : Row =
        (codes "created_at", created)
        ∷ (codes "updated_at", updated)
        ∷ signature_column (some sig) in
      let sets : Row = signature_column (some sig) ++ times in
      let u = upsert-Upserted s t t address_key find h (o, a) rest sets d in
      (
        u.succeeds,
        u.row,
        u.found,
        (
          Holds-Stored sets u.row
              ((codes "created_at", created) ∷ (codes "updated_at", updated) ∷ []) u.sets_Holds
              (refl, (refl, tt)),
          u.sets_Holds (codes "redeeming_signature") (bytes (some sig)) refl,
        ),
        u.others,
      )

  -- Where the table of the outputs' addresses has the laws of `IsTable`, an insert that is told to
  -- update stores the times of the row and its signature; without a signature it leaves the one of an
  -- old row there, so that indexing an output again does not forget who redeemed it. No other row is
  -- changed.
  pub insert_output_addresses-Signed :
      (find : Text × Text → D → Option Row)
      (h : IsTable s (codes "avm_output_addresses") address_key find) (v : OutputAddresses) (d : D)
      → Leaves find
          (v.output_id, v.address)
          d
          (λ row.
            Stored
              ((codes "created_at", time v.created_at)
                ∷ (codes "updated_at", time v.updated_at)
                ∷ [])
              row
            × Signed find (v.output_id, v.address) d v.redeeming_signature row)
          (insert_output_addresses s v true d)
  unfolding insert_output_addresses
  insert_output_addresses-Signed find h v d =
      Signed-upsert find h v.output_id v.address (time v.created_at) (time v.updated_at) d
        v.redeeming_signature
