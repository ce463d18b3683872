-- ===== src/Loader/Plan.antt =====
-- core/loader.py: the plan of a load, computed from the source or replayed from the ledger.
pub mod Coherent
pub mod Ranges
use any2helios_db.Prelude.{
  ℕ, zero, suc, ◌*◌, String, Bool, true, false, not, ◌&&◌, ◌||◌, Option, none, some, List, [], ◌∷◌,
  ◌++◌, ◌⊎◌, inl, inr, if◌then◌else◌, str_eq,
}
use any2helios_db.Prelude.Int.{ℤ}
use any2helios_db.Catalog.{Table, fqn, target_name, single_pk_col}
use any2helios_db.Chunking.{
  Chunk, key_range, source_where, from_recorded, record_bound, compute_chunks,
}
use any2helios_db.Ledger.{
  Manifest, ChunkRecord, select_where, start_run, get_run, set_snapshot, get_snapshot,
  snapshot_decided, mark_plan_complete, plan_complete,
}
use any2helios_db.Ledger.Chunks.{
  add_table, add_chunk, get_chunks, table_has_progress, delete_table_chunks, reset_run,
}
use any2helios_db.Loader.{find_table}

-- What the source adapter is asked.
pub record Probe : Type 0 where
  -- `none`: the count failed
  pub exact_row_count : Table → Option ℕ
  pub numeric_pk_bounds : Table → String → Option (ℤ × ℤ)
  pub capture_snapshot : Option String

pub record PlanSettings : Type 0 where
  pub run_id : String
  pub config_hash : String
  pub target_chunks : ℕ
  pub preserve_case : Bool
  pub fresh : Bool
  pub schema : List Table

-- The ledger, with `_chunks` and `_table_by_fqn`.
pub record PlanState : Type 0 where
  pub ledger : Manifest
  pub chunks : List Chunk
  pub tables : List Table

-- `ResumeDriftError` in its three forms, and the `ValueError` of a recorded bound that is no integer.
pub data PlanError : Type 0 where
  vanished : List String → PlanError
  key_gone key_changed bad_bound : String → String → PlanError

-- `d[key] = value`: a key that is there keeps its place.
abbrev pub put_chunk : Chunk → List Chunk → List Chunk
put_chunk ch [] = ch ∷ []
put_chunk ch (c ∷ cs) =
    let rest = put_chunk ch cs in if str_eq c.chunk_id ch.chunk_id then ch ∷ cs else c ∷ rest

abbrev pub put_table : Table → List Table → List Table
put_table t [] = t ∷ []
put_table t (u ∷ us) =
    let rest = put_table t us in if str_eq (fqn u) (fqn t) then t ∷ us else u ∷ rest

abbrev pub tables_by_fqn : List Table → List Table → List Table
tables_by_fqn [] d = d
tables_by_fqn (t ∷ ts) d = tables_by_fqn ts (put_table t d)

-- `compute_chunks` always returns.
abbrev pub or_nil : Option (List Chunk) → List Chunk
or_nil none = []
or_nil (some cs) = cs

-- `rows_est`, which is 0 where the count fails
abbrev pub or_zero : Option ℕ → ℕ
or_zero none = 0
or_zero (some n) = n

-- A chunk whose text is another, once it is rendered from the bounds and the present key column.
abbrev pub renders_otherwise :
    Table → String → Option String → Option String → Option ℤ → Option ℤ → Bool
renders_otherwise t id (some p) (some col) (some lo) (some hi) =
    elim (source_where (key_range t id col lo hi)) [ none ↦ true | some q ↦ not (str_eq q p) ]
renders_otherwise t id _ _ _ _ = false

abbrev pub guard_chunk : Table → ChunkRecord → Option String → Option Chunk → PlanError ⊎ Chunk
guard_chunk t rc pk_col none = inl (bad_bound rc.table_fqn rc.chunk_id)
guard_chunk t rc pk_col (some ch) =
    if renders_otherwise t rc.chunk_id rc.predicate pk_col ch.lo ch.hi
    then inl (key_changed rc.table_fqn rc.chunk_id)
    else inr ch

abbrev pub key_missing : Option String → Option String → Bool
key_missing (some p) none = true
key_missing _ _ = false

-- The body of the inner loop of `_replay_plan`: a recorded row of the table.
unfoldable pub replay_row : Table → ChunkRecord → PlanError ⊎ Chunk
replay_row t rc =
    let pk_col = single_pk_col t in
    if key_missing rc.predicate pk_col
    then inl (key_gone rc.table_fqn rc.chunk_id)
    else guard_chunk t rc pk_col
        (from_recorded t rc.chunk_id rc.predicate rc.bounds_lo rc.bounds_hi pk_col)

-- The tables of the rows, each once, in the order of the rows.
abbrev pub add_name : String → List String → List String
add_name name [] = name ∷ []
add_name name (n ∷ ns) = let rest = add_name name ns in if str_eq n name then n ∷ ns else n ∷ rest

abbrev pub is_name : String → List String → Bool
is_name name [] = false
is_name name (n ∷ ns) = str_eq n name || is_name name ns

abbrev pub recorded_names : List ChunkRecord → List String → List String
recorded_names [] names = names
recorded_names (rc ∷ rows) names = recorded_names rows (add_name rc.table_fqn names)

-- `sorted(set(recorded_by_table) - set(source_by_fqn))`; the rows are ordered by their tables.
abbrev pub vanished_names : List Table → List String → List String
vanished_names tables [] = []
vanished_names tables (n ∷ ns) = elim (find_table tables n) [
  | none ↦ n ∷ vanished_names tables ns
  | some t ↦ vanished_names tables ns
]

module _ (P : Probe) (G : PlanSettings) where
  -- The loop over the chunks of a table in `_plan_fresh`.
  unfoldable pub plan_chunks : Table → List Chunk → PlanState → PlanState
  plan_chunks t [] p = p
  plan_chunks t (ch ∷ cs) p = plan_chunks t cs (record p {
    chunks = put_chunk ch p.chunks;
    ledger =
        add_chunk G.run_id (fqn t) ch.chunk_id (source_where ch) (record_bound ch.lo)
          (record_bound ch.hi) p.ledger;
  })

  -- `_plan_fresh`
  unfoldable pub plan_fresh : List Table → PlanState → PlanState
  unfolding plan_chunks
  plan_fresh [] p = p
  plan_fresh (t ∷ ts) p =
      let named : PlanState = record p {
        tables = put_table t p.tables;
        ledger =
            add_table G.run_id (fqn t) (target_name t G.preserve_case)
              (or_zero (P.exact_row_count t)) p.ledger;
      } in
      plan_fresh ts
        (plan_chunks t (or_nil (compute_chunks P.numeric_pk_bounds t G.target_chunks)) named)

  -- The inner loop of `_replay_plan`, over the rows of a table.
  abbrev pub replay_rows : Table → List ChunkRecord → PlanState → PlanState × (PlanError ⊎ Unit {0})
  replay_rows t [] p = (p, inr tt)
  replay_rows t (rc ∷ rows) p = elim (replay_row t rc) [
    | inl e ↦ (p, inl e)
    | inr ch ↦ replay_rows t rows (record p { chunks = put_chunk ch p.chunks })
  ]

  -- The tables that follow, unless the rows were refused.
  abbrev pub after_rows :
      PlanState × (PlanError ⊎ Unit {0})
      → (PlanState → PlanState × (PlanError ⊎ List String))
      → PlanState × (PlanError ⊎ List String)
  after_rows (p, inl e) later = (p, inl e)
  after_rows (p, inr u) later = later p

  -- The outer loop, over the recorded tables, with `salvaged`. A table of the ledger that the source
  -- has no more was refused before.
  unfoldable pub replay_tables :
      Bool
      → List ChunkRecord
      → List Table
      → List String
      → List String
      → PlanState
      → PlanState × (PlanError ⊎ List String)
  replay_tables trust_all recorded source [] salvaged p = (p, inr salvaged)
  replay_tables trust_all recorded source (name ∷ names) salvaged p =
      elim (find_table source name) [
        | none ↦ (p, inl (vanished (name ∷ [])))
        | some t ↦
            let dropped : PlanState = record p {
              ledger = delete_table_chunks G.run_id name p.ledger;
            } in
            let known : PlanState = record p { tables = put_table t p.tables } in
            let rows = select_where (λ (rc : ChunkRecord). str_eq rc.table_fqn name) recorded in
            let later = replay_tables trust_all recorded source names in
            let replayed = replay_rows t rows known in
            if not trust_all && not (table_has_progress G.run_id name p.ledger)
            then later (salvaged ++ name ∷ []) dropped
            else after_rows replayed (later salvaged)
      ]

  -- `new_tables`
  abbrev pub to_plan : List String → List String → List Table → List Table
  to_plan recorded salvaged =
      select_where (λ (t : Table). not (is_name (fqn t) recorded) || is_name (fqn t) salvaged)

  module _ (before : String → String → Bool) where
    abbrev pub replan :
        List String → PlanState × (PlanError ⊎ List String) → PlanState × (PlanError ⊎ Unit {0})
    replan names (p, inl e) = (p, inl e)
    replan names (p, inr salvaged) = (plan_fresh (to_plan names salvaged G.schema) p, inr tt)

    abbrev pub refuse_vanished :
        List String
        → PlanState
        → PlanState × (PlanError ⊎ Unit {0})
        → PlanState × (PlanError ⊎ Unit {0})
    refuse_vanished [] p next = next
    refuse_vanished (n ∷ ns) p next = (p, inl (vanished (n ∷ ns)))

    -- `_replay_plan`
    unfoldable pub replay_plan : Bool → PlanState → PlanState × (PlanError ⊎ Unit {0})
    unfolding plan_fresh replay_tables
    replay_plan trust_all p =
        let recorded = get_chunks before G.run_id none p.ledger in
        let source = tables_by_fqn G.schema [] in
        let names = recorded_names recorded [] in
        refuse_vanished (vanished_names source names) p
          (replan names (replay_tables trust_all recorded source names [] p))

    -- `bool(prior_hash and prior_hash != cfg_hash)`
    abbrev pub drifted : Option (String × String) → Bool
    drifted none = false
    drifted (some (hash, fingerprint)) = not (str_eq hash "") && not (str_eq hash G.config_hash)

    -- `bool(prior_hash)`
    abbrev pub seen_before : Option (String × String) → Bool
    seen_before none = false
    seen_before (some (hash, fingerprint)) = not (str_eq hash "")

    -- A plan that is made is marked complete; one that fails leaves nothing in memory.
    abbrev pub settle_plan : PlanState × (PlanError ⊎ Unit {0}) → PlanState × (PlanError ⊎ Unit {0})
    settle_plan (p, inl e) = (record p { chunks = []; tables = [] }, inl e)
    settle_plan (p, inr u) =
        (record p { ledger = mark_plan_complete G.run_id true p.ledger }, inr u)

    abbrev pub must_reset : Manifest → Bool
    must_reset m = G.fresh || drifted (get_run G.run_id m)

    -- The snapshot that was decided on before is kept.
    abbrev pub decide_snapshot : Bool → Manifest → Manifest
    decide_snapshot do_reset m =
        if do_reset || not (snapshot_decided G.run_id m)
        then set_snapshot G.run_id P.capture_snapshot m
        else m

    -- The writes of `plan` before any row of the plan.
    unfoldable pub prepare : Manifest → Manifest
    prepare m =
        let m1 = start_run G.run_id G.config_hash "" "" m in
        let m2 = if must_reset m then reset_run G.run_id m1 else m1 in
        decide_snapshot (must_reset m) (mark_plan_complete G.run_id false m2)

    unfoldable pub make_plan : Bool → Bool → PlanState → PlanState × (PlanError ⊎ Unit {0})
    unfolding replay_plan
    make_plan is_resume plan_recorded p =
        if is_resume then replay_plan plan_recorded p else (plan_fresh G.schema p, inr tt)

    -- `plan`
    unfoldable pub plan : Manifest → PlanState × (PlanError ⊎ Unit {0})
    unfolding prepare make_plan
    plan m =
        let is_resume = seen_before (get_run G.run_id m) && not (must_reset m) in
        settle_plan (
          make_plan is_resume (plan_complete G.run_id m)
            (record { ledger = prepare m; chunks = []; tables = [] }))
