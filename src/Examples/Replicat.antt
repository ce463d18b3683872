-- ===== src/Examples/Replicat.antt =====
-- The theorems on the replicat at a target that counts rows.
use any2helios_db.Prelude.{ℕ, String, ◌≡◌, refl, none, some, List, [], ◌∷◌, ◌⊎◌}
use any2helios_db.Replicat.{Outcome, runs_by_kind}
use any2helios_db.Replicat.Kinds.{runs_records, AreRuns, runs_by_kind-partition}
use any2helios_db.Prelude.Int.{pos}
use any2helios_db.Record.{Value}
use any2helios_db.Replicat.Reconcile.{Key, surplus_loop}
use any2helios_db.Replicat.Reconcile.Batches.{
  join_batches, AreBatches, surplus_of, delete_batches, surplus_loop-delete_batches,
}
use any2helios_db.Replicat.Barrier.{apply_barriered}
use any2helios_db.Replicat.Barrier.Parts.{
  Part, parts_records, AreParts, run_parts, apply_barriered-runs_parts,
}
use any2helios_db.Replicat.Txn.{apply_txn}
use any2helios_db.Replicat.Txn.Tried.{Committed}
use any2helios_db.Replicat.Txn.Atomic.{CountsNone, apply_txn-all_or_nothing}
use any2helios_db.Replicat.Txn.Isolated.{Isolated}
use any2helios_db.Examples.Sample.{
  plain, move, config, Db, idle, busy, committed_rows, IsBusy, counter,
}

abbrev flush : ℕ → Db → Db
flush n s = s

apply_barriered-runs_parts_example :
    (parts : List Part) × (parts_records parts ≡ plain 5 ∷ move ∷ plain 6 ∷ [])
    × AreParts config parts
    × ((s : Db)
        → apply_barriered counter config flush 0 none (plain 5 ∷ move ∷ plain 6 ∷ []) s
          ≡ run_parts counter config flush 0 none parts 0 (0, []) s)
apply_barriered-runs_parts_example =
    apply_barriered-runs_parts counter config flush 0 none (plain 5 ∷ move ∷ plain 6 ∷ [])

counter-Isolated : Isolated counter committed_rows IsBusy
counter-Isolated = record {
  begin_keeps = elim [ idle d ↦ refl | busy d p ↦ refl ];
  begin_opens = elim [ idle d ↦ λ e. tt | busy d p ↦ λ e. tt ];
  upsert_keeps = λ t ks cs rows. elim [ idle d ↦ λ h. absurd h | busy d p ↦ λ h. (tt, refl) ];
  delete_keeps = λ t ks rows. elim [ idle d ↦ λ h. absurd h | busy d p ↦ λ h. (tt, refl) ];
  update_keeps = λ t ks cs rows. elim [ idle d ↦ λ h. absurd h | busy d p ↦ λ h. (tt, refl) ];
  failed_commit_keeps = elim [ idle d ↦ λ h e. absurd h | busy d p ↦ λ h e. cc ];
  rollback_keeps = elim [ idle d ↦ refl | busy d p ↦ refl ];
  ping_keeps = λ s. refl;
}

abbrev folded : String → String
folded name = name

apply_txn-all_or_nothing_example :
    let result = apply_txn counter config folded (plain 1 ∷ plain 2 ∷ []) 0 none 0 (idle 5) in
    ((committed_rows result.0 ≡ 5) × CountsNone result)
    ⊎ ((s2 : Db) × (out : Outcome) × (result ≡ (s2, some out))
        × Committed counter config folded committed_rows (plain 1 ∷ plain 2 ∷ []) (idle 5) s2 out)
apply_txn-all_or_nothing_example =
    apply_txn-all_or_nothing counter config folded committed_rows IsBusy (plain 1 ∷ plain 2 ∷ []) 0
      none 0 (idle 5) counter-Isolated tt

runs_by_kind-partition_example :
    let recs = plain 5 ∷ move ∷ plain 6 ∷ [] in
    (runs_records (runs_by_kind config recs ("id" ∷ []) ("id" ∷ "name" ∷ [])) ≡ recs)
    × AreRuns config
        ("id" ∷ [])
        ("id" ∷ "name" ∷ [])
        (runs_by_kind config recs ("id" ∷ []) ("id" ∷ "name" ∷ []))
runs_by_kind-partition_example =
    runs_by_kind-partition config (plain 5 ∷ move ∷ plain 6 ∷ []) ("id" ∷ []) ("id" ∷ "name" ∷ [])

abbrev keys_of_rows : List ℕ → List Key
keys_of_rows [] = []
keys_of_rows (n ∷ ns) = (Value.int (pos n) ∷ []) ∷ keys_of_rows ns

-- Of the keys 1 to 4 the source has 2; two of the others go at a time.
surplus_loop-delete_batches_example :
    let src = keys_of_rows (2 ∷ []) in
    let keys = keys_of_rows (1 ∷ 2 ∷ 3 ∷ 4 ∷ []) in
    (batches : List (List Key)) × (join_batches batches ≡ surplus_of counter config src keys)
    × AreBatches 2 batches
    × ((deleted : ℕ) (s : Db)
        → surplus_loop counter config "users" ("id" ∷ []) src 2 keys [] deleted s
          ≡ delete_batches counter config "users" ("id" ∷ []) batches deleted s)
surplus_loop-delete_batches_example =
    surplus_loop-delete_batches counter config "users" ("id" ∷ []) (keys_of_rows (2 ∷ []))
      (keys_of_rows (1 ∷ 2 ∷ 3 ∷ 4 ∷ [])) 2
