-- ===== src/Ledger/Chunks.antt =====
-- core/manifest.py: the rows of the chunks, their transitions and the reports over them. How SQLite
-- orders texts is a parameter.
pub mod Counts
pub mod Rows
use any2helios_db.Prelude.{
  ℕ, zero, suc, ◌+◌, String, Bool, true, false, not, ◌&&◌, ◌||◌, Option, none, some, List, [], ◌∷◌,
  ◌++◌, ltb, leb, ◌==◌, if◌then◌else◌, str_eq, length,
}
use any2helios_db.Ledger.{
  State, pending, in_progress, loaded, verified, failed, same_state, TableRecord, ChunkRecord,
  Manifest, update_where, select_where, count_where, any_where, first_where, upsert_row,
}

abbrev pub of_run : String → ChunkRecord → Bool
of_run run r = str_eq r.run_id run

abbrev pub of_table : String → String → ChunkRecord → Bool
of_table run fqn r = str_eq r.run_id run && str_eq r.table_fqn fqn

-- The primary key of `chunks`.
abbrev pub is_chunk : String → String → String → ChunkRecord → Bool
is_chunk run fqn id r = of_table run fqn r && str_eq r.chunk_id id

abbrev pub is_table : String → String → TableRecord → Bool
is_table run fqn t = str_eq t.run_id run && str_eq t.table_fqn fqn

-- `table_has_progress`
unfoldable pub table_has_progress : String → String → Manifest → Bool
table_has_progress run fqn m =
    any_where (λ (r : ChunkRecord). of_table run fqn r && not (same_state r.state pending)) m.chunks

-- `delete_table_chunks`
unfoldable pub delete_table_chunks : String → String → Manifest → Manifest
delete_table_chunks run fqn m = record m {
  chunks = select_where (λ (r : ChunkRecord). not (of_table run fqn r)) m.chunks;
  tables =
      update_where (is_table run fqn)
        (λ (t : TableRecord). record t { status = pending; total_chunks = 0 }) m.tables;
}

-- `add_table`
unfoldable pub add_table : String → String → String → ℕ → Manifest → Manifest
add_table run fqn target estimate m =
    let new : TableRecord = record {
      run_id = run;
      table_fqn = fqn;
      target_table = target;
      total_chunks = 0;
      total_rows_est = estimate;
      status = pending;
    } in
    let change = λ (t : TableRecord). record t {
      target_table = target;
      total_rows_est = estimate;
      status = pending;
    } in
    record m { tables = upsert_row (is_table run fqn) new change m.tables }

-- The row that `add_chunk` inserts.
abbrev pub new_chunk :
    String → String → String → Option String → Option String → Option String → ChunkRecord
new_chunk run fqn id predicate lo hi = record {
  run_id = run;
  table_fqn = fqn;
  chunk_id = id;
  predicate = predicate;
  bounds_lo = lo;
  bounds_hi = hi;
  state = pending;
  attempts = 0;
  rows_loaded = 0;
  checksum = none;
  error = none;
}

-- `add_chunk`: a row that is there stays as it is, and the chunks of the table are counted anew.
unfoldable pub add_chunk :
    String → String → String → Option String → Option String → Option String → Manifest → Manifest
add_chunk run fqn id predicate lo hi m =
    let rows =
      upsert_row (is_chunk run fqn id) (new_chunk run fqn id predicate lo hi) (λ r. r) m.chunks in
    record m {
      chunks = rows;
      tables =
          update_where (is_table run fqn)
            (λ (t : TableRecord). record t { total_chunks = count_where (of_table run fqn) rows })
            m.tables;
    }

-- What `set_chunk_state` writes.
pub record Mark : Type 0 where
  pub state : State
  pub rows_loaded : ℕ
  pub checksum : Option String
  pub error : Option String
  pub bump_attempt : Bool

abbrev pub stamp : Mark → ChunkRecord → ChunkRecord
stamp k r = record r {
  state = k.state;
  rows_loaded = k.rows_loaded;
  checksum = k.checksum;
  error = k.error;
  attempts = if k.bump_attempt then suc r.attempts else r.attempts;
}

-- `set_chunk_state`
unfoldable pub set_chunk_state : String → String → String → Mark → Manifest → Manifest
set_chunk_state run fqn id k m = record m {
  chunks = update_where (is_chunk run fqn id) (stamp k) m.chunks;
}

-- `reset_run`
unfoldable pub reset_run : String → Manifest → Manifest
reset_run run m = record m {
  chunks = select_where (λ (r : ChunkRecord). not (of_run run r)) m.chunks;
  tables =
      update_where (λ (t : TableRecord). str_eq t.run_id run)
        (λ (t : TableRecord). record t { status = pending; total_chunks = 0 }) m.tables;
}

abbrev pub is_interrupted : String → ChunkRecord → Bool
is_interrupted run r = of_run run r && same_state r.state in_progress

-- `recover`, with the number of rows that it resets
unfoldable pub recover : String → Manifest → Manifest × ℕ
recover run m = (
  record m {
    chunks =
        update_where (is_interrupted run) (λ (r : ChunkRecord). record r { state = pending })
          m.chunks;
  },
  count_where (is_interrupted run) m.chunks,
)

abbrev pub is_done : State → Bool
is_done s = same_state s loaded || same_state s verified

-- `is_chunk_done`
unfoldable pub is_chunk_done : String → String → String → Manifest → Bool
is_chunk_done run fqn id m = elim (first_where (is_chunk run fqn id) m.chunks) [
  | none ↦ false
  | some r ↦ is_done r.state
]

-- `WHERE run_id=? AND state IN (?, ?)`, and the table if one is asked for
abbrev pub is_waiting : String → ChunkRecord → Bool
is_waiting run r = of_run run r && (same_state r.state pending || same_state r.state failed)

-- `if table_fqn: sql += " AND table_fqn=?"`
abbrev pub in_table : Option String → ChunkRecord → Bool
in_table none r = true
in_table (some fqn) r = str_eq fqn "" || str_eq r.table_fqn fqn

module _ (before : String → String → Bool) where
  -- `ORDER BY table_fqn, chunk_id`: `r` comes before `q`.
  abbrev pub precedes : ChunkRecord → ChunkRecord → Bool
  precedes r q =
      if str_eq r.table_fqn q.table_fqn
      then before r.chunk_id q.chunk_id
      else before r.table_fqn q.table_fqn

  abbrev pub insert_row : ChunkRecord → List ChunkRecord → List ChunkRecord
  insert_row r [] = r ∷ []
  insert_row r (q ∷ qs) =
      let rest = insert_row r qs in if precedes q r then q ∷ rest else r ∷ q ∷ qs

  unfoldable pub order_rows : List ChunkRecord → List ChunkRecord
  order_rows [] = []
  order_rows (r ∷ rs) = insert_row r (order_rows rs)

  -- `pending_chunks`
  unfoldable pub pending_chunks : String → Option String → Manifest → List ChunkRecord
  unfolding order_rows
  pending_chunks run fqn m =
      order_rows (select_where (λ (r : ChunkRecord). is_waiting run r && in_table fqn r) m.chunks)

  -- `get_chunks`
  unfoldable pub get_chunks : String → Option String → Manifest → List ChunkRecord
  unfolding order_rows
  get_chunks run fqn m =
      order_rows (select_where (λ (r : ChunkRecord). of_run run r && in_table fqn r) m.chunks)
