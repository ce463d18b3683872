-- ===== src/Examples/Ledger.antt =====
-- A ledger of one table with two chunks.
use Prim.Native.Nat.{Ordering}
use Prim.Native.String.{compare}
use any2helios_db.Prelude.{String, ◌≡◌, refl, Bool, true, false, none, [], ◌∷◌}
use any2helios_db.Ledger.{Manifest, State, loaded, verified, pending, ChunkRecord}
use any2helios_db.Ledger.Chunks.{of_run, is_done, add_table, add_chunk, recover}
use any2helios_db.Ledger.Chunks.Counts.{IsCounted}
use any2helios_db.Ledger.Written.{opened, named, added, resumed, IsRegistered, Written-IsCounted}
use any2helios_db.Ledger.Chunks.Rows.{All}
use any2helios_db.Ledger.Progress.{progress_snapshot, order_tables, table_progress}
use any2helios_db.Ledger.Progress.Complete.{progress_snapshot_complete}

abbrev chunk_in : State → String → ChunkRecord
chunk_in s id = record {
  run_id = "r1";
  table_fqn = "app.users";
  chunk_id = id;
  predicate = none;
  bounds_lo = none;
  bounds_hi = none;
  state = s;
  attempts = 1;
  rows_loaded = 5;
  checksum = none;
  error = none;
}

abbrev ledger_with : State → Manifest
ledger_with s = record {
  runs = [];
  tables =
      record {
        run_id = "r1";
        table_fqn = "app.users";
        target_table = "users";
        total_chunks = 2;
        total_rows_est = 10;
        status = pending;
      }
      ∷ [];
  chunks = chunk_in loaded "users:0" ∷ chunk_in s "users:1" ∷ [];
  watermarks = [];
}

abbrev by_name : String → String → Bool
by_name a b = elim (compare a b) [ Ordering.lt ↦ true | _ ↦ false ]

progress_snapshot_complete_example :
    All
      (λ (r : ChunkRecord). of_run "r1" r ≡ true → is_done r.state ≡ true)
      (ledger_with verified).chunks
unfolding progress_snapshot order_tables table_progress
progress_snapshot_complete_example =
    progress_snapshot_complete by_name "r1" (ledger_with verified) (λ ours. refl, tt)
      (λ ours. refl, (λ ours. refl, tt)) refl

-- With a chunk that waits the run is not complete.
progress_snapshot-waiting : (progress_snapshot by_name "r1" (ledger_with pending)).complete ≡ false
unfolding progress_snapshot order_tables table_progress
progress_snapshot-waiting = refl

abbrev blank : Manifest
blank = record { runs = []; tables = []; chunks = []; watermarks = [] }

abbrev one_table : Manifest
one_table = add_table "r1" "app.users" "users" 10 blank

abbrev one_chunk : Manifest
one_chunk = add_chunk "r1" "app.users" "users:0" none none none one_table

Written-IsCounted_example :
    IsCounted (recover "r1" one_chunk).0 × IsRegistered (recover "r1" one_chunk).0
unfolding add_table
Written-IsCounted_example = Written-IsCounted (recover "r1" one_chunk).0 (
    resumed
      (added (named (opened blank refl refl) "r1" "app.users" "users" 10) "r1" "app.users" "users:0"
        none none none refl)
      "r1")
