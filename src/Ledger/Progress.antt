-- ===== src/Ledger/Progress.antt =====
-- core/manifest.py, `progress_snapshot`: what the live monitor is shown of a run.
pub mod Complete
use any2helios_db.Prelude.{
  ℕ, zero, suc, ◌+◌, String, Bool, true, false, not, ◌&&◌, ◌||◌, List, [], ◌∷◌, map, ltb, leb, ◌==◌,
  if◌then◌else◌, str_eq, length,
}
use any2helios_db.Ledger.{
  State, pending, in_progress, loaded, verified, failed, same_state, TableRecord, ChunkRecord,
  Manifest, select_where, count_where,
}
use any2helios_db.Ledger.Chunks.{of_table, is_done}

-- A line of the snapshot.
pub record TableProgress : Type 0 where
  pub table_fqn : String
  pub target_table : String
  pub status : State
  pub chunks_total : ℕ
  pub chunks_loaded : ℕ
  pub chunks_failed : ℕ
  pub rows_loaded : ℕ
  pub rows_est : ℕ

pub record Progress : Type 0 where
  pub tables : List TableProgress
  pub tables_total : ℕ
  pub tables_done : ℕ
  pub rows_loaded : ℕ
  pub rows_est : ℕ
  pub chunks_total : ℕ
  pub chunks_loaded : ℕ
  pub chunks_failed : ℕ
  pub complete : Bool

-- `coalesce(sum(c.rows_loaded), 0)` over the chunks of a table
abbrev pub sum_rows : (ChunkRecord → Bool) → List ChunkRecord → ℕ
sum_rows test [] = 0
sum_rows test (r ∷ rs) = (if test r then r.rows_loaded else 0) + sum_rows test rs

-- The derived live status, from the stored one and the counts.
unfoldable pub live_status : State → ℕ → ℕ → ℕ → ℕ → State
live_status stored total done broken working =
    if not (broken == 0)
    then failed
    else if ltb 0 total && leb total done
    then if same_state stored verified then verified else loaded
    else if not (working == 0) || (ltb 0 done && ltb done total)
    then in_progress
    else pending

-- `int(total_chunks or 0) or int(chunks_seen or 0)`
abbrev pub known_total : ℕ → ℕ → ℕ
known_total total seen = if total == 0 then seen else total

module _ (run : String) where
  abbrev pub in_state : String → State → ChunkRecord → Bool
  in_state fqn s r = of_table run fqn r && same_state r.state s

  abbrev pub done_in_table : String → ChunkRecord → Bool
  done_in_table fqn r = of_table run fqn r && is_done r.state

  -- A table with the counts of its chunks.
  unfoldable pub table_progress : List ChunkRecord → TableRecord → TableProgress
  unfolding live_status
  table_progress chunks t =
      let total = known_total t.total_chunks (count_where (of_table run t.table_fqn) chunks) in
      let done = count_where (done_in_table t.table_fqn) chunks in
      let broken = count_where (in_state t.table_fqn failed) chunks in
      record {
        table_fqn = t.table_fqn;
        target_table = t.target_table;
        status =
            live_status t.status total done broken
              (count_where (in_state t.table_fqn in_progress) chunks);
        chunks_total = total;
        chunks_loaded = done;
        chunks_failed = broken;
        rows_loaded = sum_rows (of_table run t.table_fqn) chunks;
        rows_est = t.total_rows_est;
      }

-- `done`
abbrev pub is_table_done : TableProgress → Bool
is_table_done t = ltb 0 t.chunks_total && leb t.chunks_total t.chunks_loaded && t.chunks_failed == 0

abbrev pub sum_of : (TableProgress → ℕ) → List TableProgress → ℕ
sum_of f [] = 0
sum_of f (t ∷ ts) = f t + sum_of f ts

abbrev pub of_table_run : String → TableRecord → Bool
of_table_run run t = str_eq t.run_id run

module _ (before : String → String → Bool) where
  -- `ORDER BY t.table_fqn`
  abbrev pub insert_table : TableRecord → List TableRecord → List TableRecord
  insert_table t [] = t ∷ []
  insert_table t (u ∷ us) =
      let rest = insert_table t us in
      if before u.table_fqn t.table_fqn then u ∷ rest else t ∷ u ∷ us

  unfoldable pub order_tables : List TableRecord → List TableRecord
  order_tables [] = []
  order_tables (t ∷ ts) = insert_table t (order_tables ts)

  -- `progress_snapshot`
  unfoldable pub progress_snapshot : String → Manifest → Progress
  unfolding order_tables table_progress
  progress_snapshot run m =
      let tables =
        map (table_progress run m.chunks)
          (order_tables (select_where (of_table_run run) m.tables)) in
      let total = length tables in
      let done = count_where is_table_done tables in
      record {
        tables = tables;
        tables_total = total;
        tables_done = done;
        rows_loaded = sum_of (λ t. t.rows_loaded) tables;
        rows_est = sum_of (λ t. t.rows_est) tables;
        chunks_total = sum_of (λ t. t.chunks_total) tables;
        chunks_loaded = sum_of (λ t. t.chunks_loaded) tables;
        chunks_failed = sum_of (λ t. t.chunks_failed) tables;
        complete = ltb 0 total && done == total;
      }
