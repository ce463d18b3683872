-- ===== src/Examples/Loader.antt =====
-- A load of two chunks by two threads, into a target whose first load fails or none does.
use Prim.Native.Nat.{Ordering}
use Prim.Native.String.{compare}
use mathlib.Core.Option.{some-injective}
use any2helios_db.Prelude.{
  ℕ, zero, suc, String, map, ◌≡◌, refl, sym, ap, ◌∙◌, Bool, true, false, ◌&&◌, ◌||◌, Option, none,
  some, List, [], ◌∷◌, ◌⊎◌, inl, inr, str_eq, eq_iff, arith,
}
use any2helios_db.Prelude.Int.{pos, negsuc}
use any2helios_db.Catalog.{fqn}
use any2helios_db.Chunking.{Chunk, key_range, source_where}
use any2helios_db.Ledger.{pending, in_progress, failed, ChunkRecord, get_snapshot}
use any2helios_db.Ledger.Chunks.{pending_chunks, recover, set_chunk_state}
use any2helios_db.Ledger.Chunks.Rows.{All, keys}
use any2helios_db.Loader.{
  Endpoints, Phase, queued, Loader, World, find_chunk, find_table, load_chunk_range, step, step_at,
  recovered, load_each, load_pending, safe_load, drive, run_schedule, run_passes, not_loaded,
}
use any2helios_db.Loader.Held.{Loads, HeldIfDone, Sound}
use any2helios_db.Loader.Crash.{starts, begins, moves, HeldIfDone-Reached}
use any2helios_db.Loader.Whole.{HoldsAll, run_passes-HoldsAll}
use any2helios_db.Loader.Succeeds.{Succeeds}
use any2helios_db.Loader.Complete.{run_passes_complete}
use any2helios_db.Examples.Sample.{users}

-- How many loads are still to fail, and what the target was given.
abbrev Shelf : Type 0
Shelf = ℕ × List (String × Option String)

abbrev try_load : Bool → Shelf → String × Option String → Shelf × (String ⊎ ℕ)
try_load true (fails, held) row = ((fails, row ∷ held), inr 1)
try_load false (zero, held) row = ((zero, row ∷ held), inr 1)
try_load false (suc fails, held) row = ((fails, held), inl "lost connection")

abbrev shelf : Bool → Endpoints Shelf
shelf steady = record {
  connect_source = λ s. (s, inr tt);
  connect_target = λ s. (s, inr tt);
  load_range =
      λ name columns rows clause copy s. try_load steady s (fqn rows.table, rows.where_clause);
}

abbrev first_chunk : Chunk
first_chunk = key_range users "users:0" "id" (negsuc 1) (pos 3)

abbrev second_chunk : Chunk
second_chunk = key_range users "users:1" "id" (pos 3) (pos 8)

abbrev two_threads : Loader
two_threads = record {
  run_id = "r1";
  parallelism = 2;
  batch_size = 1000;
  use_copy = true;
  preserve_case = false;
  concurrent_writes = true;
  chunks = first_chunk ∷ second_chunk ∷ [];
  tables = users ∷ [];
}

abbrev same_clause : Option String → Option String → Bool
same_clause none none = true
same_clause (some a) (some b) = str_eq a b
same_clause _ _ = false

same_clause_refl : (o : Option String) → same_clause o o ≡ true
same_clause_refl none = refl
same_clause_refl (some a) = (eq_iff a a).1 refl

abbrev on_shelf : String → Option String → List (String × Option String) → Bool
on_shelf name clause [] = false
on_shelf name clause ((n, c) ∷ rest) =
    str_eq n name && same_clause c clause || on_shelf name clause rest

abbrev clause_of : Option Chunk → Option String
clause_of none = none
clause_of (some ch) = source_where ch

abbrev OnShelf : String → String → Shelf → Type 0
OnShelf name id s = on_shelf name (clause_of (find_chunk two_threads.chunks id)) s.1 ≡ true

on_shelf_try :
    (steady : Bool) (s : Shelf) (row : String × Option String) (name : String)
    (clause : Option String)
    → on_shelf name clause s.1 ≡ true
    → on_shelf name clause (try_load steady s row).0.1 ≡ true
on_shelf_try true (fails, held) (n, c) name clause h = ground (arith, h)
on_shelf_try false (zero, held) (n, c) name clause h = ground (arith, h)
on_shelf_try false (suc fails, held) (n, c) name clause h = h

on_shelf_loaded :
    (steady : Bool) (s : Shelf) (name : String) (clause : Option String) (n : ℕ)
    → (try_load steady s (name, clause)).1 ≡ inr n
    → on_shelf name clause (try_load steady s (name, clause)).0.1 ≡ true
on_shelf_loaded true (fails, held) name clause n h =
    rw ((eq_iff name name).1 refl, same_clause_refl clause) refl
on_shelf_loaded false (zero, held) name clause n h =
    rw ((eq_iff name name).1 refl, same_clause_refl clause) refl
on_shelf_loaded false (suc fails, held) name clause n h = ground (arith, h)

shelf-Loads : (steady : Bool) → Loads (shelf steady) two_threads none OnShelf
unfolding load_chunk_range
shelf-Loads steady = record {
  source_keeps = λ name id s h. h;
  target_keeps = λ name id s h. h;
  load_keeps = λ ch found name id s h.
      on_shelf_try steady s (fqn ch.table, source_where ch) name
        (clause_of (find_chunk two_threads.chunks id)) h;
  load_holds =
      λ ch found n s e. rw found (on_shelf_loaded steady s (fqn ch.table) (source_where ch) n e);
}

abbrev row : String → ChunkRecord
row id = record {
  run_id = "r1";
  table_fqn = "app.users";
  chunk_id = id;
  predicate = none;
  bounds_lo = none;
  bounds_hi = none;
  state = pending;
  attempts = 0;
  rows_loaded = 0;
  checksum = none;
  error = none;
}

-- After a crash: one chunk was being loaded, the other had failed.
abbrev crashed : World Shelf
crashed = record {
  ledger = record {
    runs = [];
    tables = [];
    chunks =
        record (row "users:0") { state = in_progress }
        ∷ record (row "users:1") { state = failed }
        ∷ [];
    watermarks = [];
  };
  target = (1, []);
  errors = [];
}

abbrev alphabetical : String → String → Bool
alphabetical a b = elim (compare a b) [ Ordering.lt ↦ true | _ ↦ false ]

abbrev HeldOnShelf : World Shelf → Type 0
HeldOnShelf w = Sound two_threads none OnShelf w

crashed-Sound : (fails : ℕ) → HeldOnShelf (record crashed { target = (fails, []) })
unfolding find_chunk find_table fqn get_snapshot
crashed-Sound fails = (
  refl,
  (
    λ of ch t found known.
        ap (λ (c : Chunk). c.table) (sym (some-injective first_chunk ch found))
        ∙ some-injective users t known,
    (
      λ of ch t found known.
          ap (λ (c : Chunk). c.table) (sym (some-injective second_chunk ch found))
          ∙ some-injective users t known,
      tt,
    ),
  ),
  (λ of done. ground (arith, done), (λ of done. ground (arith, done), tt)),
)

-- The process died while its first chunk was loaded; a new one begins a pass and its second thread
-- moves.
abbrev restarted : World Shelf
restarted = record (recovered two_threads crashed) { errors = [] }

abbrev threads : List Phase
threads = map queued (pending_chunks alphabetical "r1" none (recovered two_threads crashed).ledger)

abbrev moved : World Shelf
moved = (step_at (shelf false) (λ e. e) two_threads 1 threads restarted).1

HeldIfDone-Reached_example :
    All (HeldIfDone two_threads none OnShelf moved.target) moved.ledger.chunks
    × (keys moved.ledger.chunks ≡ keys crashed.ledger.chunks)
HeldIfDone-Reached_example =
    HeldIfDone-Reached (shelf false) (λ e. e) two_threads none OnShelf (shelf-Loads false)
      alphabetical crashed (crashed-Sound 1) _ moved (moves (begins starts []) 1)

run_passes-HoldsAll_example :
    HoldsAll
      (shelf false)
      (λ e. e)
      two_threads
      none
      OnShelf
      (shelf-Loads false)
      alphabetical
      (run_passes
        (shelf false)
        (λ e. e)
        two_threads
        alphabetical
        (0 ∷ 1 ∷ 0 ∷ 1 ∷ 1 ∷ 0 ∷ 0 ∷ 1 ∷ 1 ∷ [])
        crashed).target
      (keys crashed.ledger.chunks)
unfolding not_loaded run_passes load_pending recovered run_schedule step_at step load_each safe_load
    drive find_chunk find_table fqn pending_chunks recover set_chunk_state
run_passes-HoldsAll_example =
    run_passes-HoldsAll (shelf false) (λ e. e) two_threads none OnShelf (shelf-Loads false)
      alphabetical (0 ∷ 1 ∷ 0 ∷ 1 ∷ 1 ∷ 0 ∷ 0 ∷ 1 ∷ 1 ∷ []) crashed (crashed-Sound 1) refl

shelf-Succeeds : Succeeds (shelf true)
shelf-Succeeds = record {
  source_connects = λ s. refl;
  target_connects = λ s. refl;
  range_loads = λ name columns rows clause copy s. (1, refl);
}

run_passes_complete_example :
    (not_loaded
        (shelf true)
        (λ e. e)
        two_threads
        alphabetical
        (run_passes (shelf true) (λ e. e) two_threads alphabetical (0 ∷ 0 ∷ []) crashed)
      ≡ [])
    × HoldsAll
        (shelf true)
        (λ e. e)
        two_threads
        none
        OnShelf
        (shelf-Loads true)
        alphabetical
        (run_passes (shelf true) (λ e. e) two_threads alphabetical (0 ∷ 0 ∷ []) crashed).target
        (keys crashed.ledger.chunks)
unfolding find_chunk find_table fqn
run_passes_complete_example =
    run_passes_complete (shelf true) (λ e. e) two_threads shelf-Succeeds none OnShelf
      (shelf-Loads true) alphabetical (0 ∷ 0 ∷ []) crashed (crashed-Sound 1)
      (λ of. (first_chunk, refl, users, refl), (λ of. (second_chunk, refl, users, refl), tt))
