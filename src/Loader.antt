-- ===== src/Loader.antt =====
-- core/loader.py: the passes of a resumable load over the ledger. A thread that loads a chunk is a
-- `Phase`, which says where in `_safe_load` and `_load_chunk` it stands, and `step` is its next
-- effect. A pass of threads runs by a schedule, the list of the threads that move, so that every
-- interleaving is a schedule and a crash is one that stops early.
pub mod Complete
pub mod Covered
pub mod Crash
pub mod Held
pub mod Finished
pub mod Plan
pub mod Succeeds
pub mod Whole
use any2helios_db.Prelude.{
  ℕ, zero, suc, ◌+◌, String, ◌<>◌, Bool, true, false, ◌&&◌, Option, none, some, List, [], ◌∷◌, ◌++◌,
  map, ltb, ◌==◌, ◌⊎◌, inl, inr, if◌then◌else◌, str_eq, length, get_elem?, set,
}
use any2helios_db.Ident.{fold}
use any2helios_db.Catalog.{Table, fqn, target_name}
use any2helios_db.Chunking.{Chunk, source_where, target_where}
use any2helios_db.Ledger.{
  State, in_progress, loaded, failed, verified, ChunkRecord, Manifest, same_state, count_where,
  get_snapshot,
}
use any2helios_db.Ledger.Chunks.{Mark, of_run, set_chunk_state, recover, pending_chunks, is_done}

-- The rows that `stream_rows` reads, at the snapshot of `use_snapshot`.
pub record Stream : Type 0 where
  pub snapshot : Option String
  pub table : Table
  pub columns : List String
  pub where_clause : Option String
  pub arraysize : ℕ

-- The calls of the adapter and the driver: the text of the exception, or the result.
pub record Endpoints (S : Type 0) : Type 0 where
  pub connect_source : S → S × (String ⊎ Unit {0})
  pub connect_target : S → S × (String ⊎ Unit {0})
  pub load_range : String → List String → Stream → Option String → Bool → S → S × (String ⊎ ℕ)

-- What `ResumableLoader` keeps; `chunks` and `tables` are `_chunks` and `_table_by_fqn`, in which a
-- key is looked up by the chunk's and by the table's own name.
pub record Loader : Type 0 where
  pub run_id : String
  pub parallelism : ℕ
  pub batch_size : ℕ
  pub use_copy : Bool
  pub preserve_case : Bool
  pub concurrent_writes : Bool
  pub chunks : List Chunk
  pub tables : List Table

-- The ledger and the target outlive the process, `_errors` does not.
pub record World (S : Type 0) : Type 0 where
  pub ledger : Manifest
  pub target : S
  pub errors : List (String × String)

-- `self._chunks.get(chunk_id)`
unfoldable pub find_chunk : List Chunk → String → Option Chunk
find_chunk [] id = none
find_chunk (c ∷ cs) id =
    let rest = find_chunk cs id in if str_eq c.chunk_id id then some c else rest

-- `self._table_by_fqn[table_fqn]`
unfoldable pub find_table : List Table → String → Option Table
find_table [] name = none
find_table (t ∷ ts) name =
    let rest = find_table ts name in if str_eq (fqn t) name then some t else rest

-- `ch` is the chunk of the row, `t` the table of the row's name.
pub data Phase : Type 0 where
  -- not begun
  queued : ChunkRecord → Phase
  -- the source is connected
  reading : ChunkRecord → Table → Chunk → Phase
  -- both are connected, and the snapshot is read
  connected : ChunkRecord → Table → Chunk → Option String → Phase
  -- the row is IN_PROGRESS
  marked : ChunkRecord → Table → Chunk → Option String → Phase
  -- the range is loaded, with so many rows
  written : ChunkRecord → Chunk → ℕ → Phase
  -- an exception is about to be handled
  broken : ChunkRecord → Chunk → String → Phase
  finished : Phase

abbrev pub in_progress_mark : Mark
in_progress_mark = record {
  state = in_progress;
  rows_loaded = 0;
  checksum = none;
  error = none;
  bump_attempt = true;
}

abbrev pub loaded_mark : ℕ → Mark
loaded_mark n = record {
  state = loaded;
  rows_loaded = n;
  checksum = none;
  error = none;
  bump_attempt = false;
}

abbrev pub failed_mark : String → Mark
failed_mark e = record {
  state = failed;
  rows_loaded = 0;
  checksum = none;
  error = some e;
  bump_attempt = false;
}

-- `self._errors[chunk_id] = ...`
abbrev pub put_error : String → String → List (String × String) → List (String × String)
put_error id e [] = (id, e) ∷ []
put_error id e ((k, v) ∷ rest) =
    let more = put_error id e rest in if str_eq k id then (id, e) ∷ rest else (k, v) ∷ more

abbrev pub get_error : List (String × String) → String → Option String
get_error [] id = none
get_error ((k, v) ∷ rest) id = let more = get_error rest id in if str_eq k id then some v else more

module _ {S : Type 0} where
  abbrev pub after_connect :
      ChunkRecord → Chunk → Phase → World S → S × (String ⊎ Unit {0}) → Phase × World S
  after_connect r ch next w (s, inl e) = (broken r ch e, record w { target = s })
  after_connect r ch next w (s, inr u) = (next, record w { target = s })

  abbrev pub after_load : ChunkRecord → Chunk → World S → S × (String ⊎ ℕ) → Phase × World S
  after_load r ch w (s, inl e) = (broken r ch e, record w { target = s })
  after_load r ch w (s, inr n) = (written r ch n, record w { target = s })

module _ {S : Type 0} (L : Loader) where
  unfoldable pub recovered : World S → World S
  recovered w = record w { ledger = (recover L.run_id w.ledger).0 }

  abbrev pub mark_row : String → String → Mark → World S → World S
  mark_row name id k w = record w { ledger = set_chunk_state L.run_id name id k w.ledger }

module _ {S : Type 0} (E : Endpoints S) (L : Loader) where
  -- The rows of a chunk, read by its `source_where`.
  abbrev pub stream_of : Table → Chunk → Option String → Stream
  stream_of t ch snapshot = record {
    snapshot = snapshot;
    table = t;
    columns = t.columns;
    where_clause = source_where ch;
    arraysize = L.batch_size;
  }

  abbrev pub fold_columns : List String → List String
  fold_columns [] = []
  fold_columns (c ∷ cs) = fold c L.preserve_case ∷ fold_columns cs

  -- `tgt.load_range(tname, tcols, rows, where=tw, use_copy=self.use_copy)`
  unfoldable pub load_chunk_range : Table → Chunk → Option String → S → S × (String ⊎ ℕ)
  load_chunk_range t ch snapshot =
      E.load_range (target_name t L.preserve_case) (fold_columns t.columns)
        (stream_of t ch snapshot) (target_where ch L.preserve_case) L.use_copy

module _ {S : Type 0} (E : Endpoints S) (cut : String → String) (L : Loader) where
  abbrev pub note_error : String → String → World S → World S
  note_error id e w = record w { errors = put_error id (cut e) w.errors }

  -- The beginning of `_safe_load` and of `_load_chunk`; a table that is not known is a `KeyError`,
  -- whose text is its name in quotes.
  abbrev pub begin_load : ChunkRecord → Option Chunk → Option Table → World S → Phase × World S
  begin_load r none t w = (finished, w)
  begin_load r (some ch) none w = (finished, note_error r.chunk_id ("'" <> (r.table_fqn <> "'")) w)
  begin_load r (some ch) (some t) w =
      after_connect r ch (reading r t ch) w (E.connect_source w.target)

  -- The next effect of a thread.
  unfoldable pub step : Phase → World S → Phase × World S
  unfolding load_chunk_range
  step (queued r) w =
      begin_load r (find_chunk L.chunks r.chunk_id) (find_table L.tables r.table_fqn) w
  step (reading r t ch) w =
      after_connect r ch (connected r t ch (get_snapshot L.run_id w.ledger)) w
        (E.connect_target w.target)
  step (connected r t ch snapshot) w =
      (marked r t ch snapshot, mark_row L r.table_fqn ch.chunk_id in_progress_mark w)
  step (marked r t ch snapshot) w = after_load r ch w (load_chunk_range E L t ch snapshot w.target)
  step (written r ch n) w = (finished, mark_row L r.table_fqn ch.chunk_id (loaded_mark n) w)
  step (broken r ch e) w = (
    finished,
    note_error r.chunk_id e (mark_row L r.table_fqn ch.chunk_id (failed_mark (cut e)) w),
  )
  step finished w = (finished, w)

  -- A thread by itself, for so many effects.
  unfoldable pub drive : ℕ → Phase → World S → Phase × World S
  unfolding step
  drive zero p w = (p, w)
  drive (suc n) p w = let next = step p w in drive n next.0 next.1

  -- `_safe_load`: no thread takes more than five effects.
  unfoldable pub safe_load : ChunkRecord → World S → World S
  unfolding drive
  safe_load r w = (drive 5 (queued r) w).1

  -- A thread moves; a number that is no thread's is passed over.
  unfoldable pub step_at : ℕ → List Phase → World S → List Phase × World S
  unfolding step
  step_at i [] w = ([], w)
  step_at zero (p ∷ ps) w = let next = step p w in (next.0 ∷ ps, next.1)
  step_at (suc i) (p ∷ ps) w = let rest = step_at i ps w in (p ∷ rest.0, rest.1)

  -- The threads of a pool under a schedule.
  unfoldable pub run_schedule : List ℕ → List Phase → World S → List Phase × World S
  unfolding step_at
  run_schedule [] ps w = (ps, w)
  run_schedule (i ∷ is) ps w = let next = step_at i ps w in run_schedule is next.0 next.1

  unfoldable pub load_each : List ChunkRecord → World S → World S
  unfolding safe_load
  load_each [] w = w
  load_each (r ∷ rs) w = load_each rs (safe_load r w)

  module _ (before : String → String → Bool) where
    -- `_load_pending`
    unfoldable pub load_pending : Bool → List ℕ → World S → World S
    unfolding recovered run_schedule load_each
    load_pending parallel schedule w =
        let w1 = recovered L w in
        let waiting = pending_chunks before L.run_id none w1.ledger in
        if parallel && (ltb 1 L.parallelism && ltb 1 (length waiting))
        then (run_schedule schedule (map queued waiting) w1).1
        else load_each waiting w1

    -- The two passes of `run`, with no errors at first.
    unfoldable pub run_passes : List ℕ → World S → World S
    unfolding load_pending
    run_passes schedule w =
        let w1 = load_pending L.concurrent_writes schedule (record w { errors = [] }) in
        if ltb 1 L.parallelism && L.concurrent_writes then load_pending false [] w1 else w1

    -- `chunk {} not loaded: {}`, with the last error or the state.
    unfoldable pub not_loaded : World S → List (String × (State ⊎ String))
    not_loaded w =
        map
          (λ (r : ChunkRecord). (
            r.chunk_id,
            elim (get_error w.errors r.chunk_id) [ none ↦ inl r.state | some e ↦ inr e ],
          ))
          (pending_chunks before L.run_id none w.ledger)
