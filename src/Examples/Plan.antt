-- ===== src/Examples/Plan.antt =====
-- A plan over a ledger with one recorded range.
use Prim.Native.Nat.{Ordering}
use Prim.Native.String.{compare}
use any2helios_db.Prelude.{String, ◌≡◌, refl, Bool, true, false, none, some, [], ◌∷◌, inl, inr}
use any2helios_db.Prelude.Int.{pos, negsuc}
use any2helios_db.Catalog.{single_pk_col}
use any2helios_db.Catalog.{fqn}
use any2helios_db.Chunking.{from_recorded}
use any2helios_db.Loader.{find_table}
use any2helios_db.Ledger.Chunks.{get_chunks, order_rows, reset_run}
use any2helios_db.Ledger.{
  start_run, get_run, set_snapshot, set_watermark, snapshot_decided, mark_plan_complete,
  plan_complete, loaded, Manifest, pending, ChunkRecord,
}
use any2helios_db.Ledger.Chunks.Rows.{All}
use any2helios_db.Loader.Plan.{
  Probe, PlanSettings, PlanError, key_gone, plan, replay_row, must_reset, prepare, make_plan,
  replay_plan, replay_tables, plan_fresh,
}
use any2helios_db.Loader.Plan.Coherent.{Coherent, Bounded}
use any2helios_db.Loader.Plan.Ranges.{plan-Good}
use any2helios_db.Examples.Sample.{users}

abbrev recorded_row : ChunkRecord
recorded_row = record {
  run_id = "r1";
  table_fqn = "app.users";
  chunk_id = "users:0";
  predicate = some "\"id\" >= -2 AND \"id\" < 3";
  bounds_lo = some "-2";
  bounds_hi = some "3";
  state = pending;
  attempts = 0;
  rows_loaded = 0;
  checksum = none;
  error = none;
}

abbrev recorded_ledger : Manifest
recorded_ledger = record {
  runs =
      record {
        run_id = "r1";
        config_hash = "h";
        source_fingerprint = "";
        started_at = "";
        status = "running";
      }
      ∷ [];
  tables = [];
  chunks = recorded_row ∷ [];
  watermarks = [];
}

abbrev counted : Probe
counted = record {
  exact_row_count = λ t. some 10;
  numeric_pk_bounds = λ t col. some (negsuc 1, pos 7);
  capture_snapshot = none;
}

abbrev settings : PlanSettings
settings = record {
  run_id = "r1";
  config_hash = "h";
  target_chunks = 4;
  preserve_case = false;
  fresh = false;
  schema = users ∷ [];
}

abbrev in_order : String → String → Bool
in_order a b = elim (compare a b) [ Ordering.lt ↦ true | _ ↦ false ]

plan-Good_example :
    All Bounded (plan counted settings in_order recorded_ledger).0.ledger.chunks
    × All Coherent (plan counted settings in_order recorded_ledger).0.chunks
    × ((e : PlanError)
        → (plan counted settings in_order recorded_ledger).1 ≡ inl e
        → (plan counted settings in_order recorded_ledger).0.chunks ≡ [])
plan-Good_example = plan-Good counted settings in_order recorded_ledger (tt, tt)

-- The table has lost the key that its ranges were made of.
replay_row-no_key :
    replay_row (record users { primary_key = none }) recorded_row
    ≡ inl (key_gone "app.users" "users:0")
unfolding replay_row single_pk_col
replay_row-no_key = refl

-- A ledger of a complete plan under another configuration, whose chunk is loaded.
abbrev old_ledger : Manifest
old_ledger = record {
  runs =
      record {
        run_id = "r1";
        config_hash = "old";
        source_fingerprint = "";
        started_at = "";
        status = "running";
      }
      ∷ [];
  tables = [];
  chunks =
      record recorded_row { predicate = none; bounds_lo = none; bounds_hi = none; state = loaded }
      ∷ [];
  watermarks =
      record {
        run_id = "r1";
        table_fqn = "__plan__";
        kind = "plan_complete";
        value = "1";
        captured_at = "";
      }
      ∷ [];
}

-- A plan resets the run, since the configuration has changed.
plan_resets : must_reset counted settings in_order old_ledger ≡ true
unfolding get_run
plan_resets = refl

-- A crash between the first write of that plan and its reset leaves the new hash beside the old
-- rows: the next plan does not reset, and the loaded chunk of the other configuration stays loaded.
plan_after_crash :
    (must_reset counted settings in_order (start_run "r1" "h" "" "" old_ledger) ≡ false)
    × ((plan counted settings in_order (start_run "r1" "h" "" "" old_ledger)).0.ledger.chunks
        ≡ old_ledger.chunks)
    × ((plan counted settings in_order (start_run "r1" "h" "" "" old_ledger)).1 ≡ inr tt)
unfolding start_run get_run plan prepare make_plan replay_plan replay_tables replay_row plan_fresh
    get_chunks order_rows reset_run set_snapshot set_watermark snapshot_decided mark_plan_complete
    plan_complete find_table fqn from_recorded single_pk_col
plan_after_crash = (refl, refl, refl)
