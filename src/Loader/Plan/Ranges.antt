-- ===== src/Loader/Plan/Ranges.antt =====
-- A plan, fresh or replayed, keeps the bounds in the ledger and the ranges in memory.
use any2helios_db.Prelude.{
  String, ◌≡◌, refl, sym, subst, Bool, true, false, not, ◌&&◌, ◌||◌, none, List, [], ◌∷◌, ◌++◌, ◌⊎◌,
  inl, inr, if◌then◌else◌, arith, str_eq, Bool-cases, Option-cases,
}
use any2helios_db.Catalog.{Table, fqn}
use any2helios_db.Chunking.{Chunk, source_where, record_bound, compute_chunks}
use any2helios_db.Ledger.{
  Manifest, ChunkRecord, select_where, start_run, get_run, set_snapshot, set_watermark,
  snapshot_decided, mark_plan_complete, plan_complete,
}
use any2helios_db.Ledger.Chunks.{
  of_run, of_table, in_table, new_chunk, is_chunk, add_chunk, add_table, get_chunks,
  delete_table_chunks, reset_run, table_has_progress,
}
use any2helios_db.Ledger.Chunks.Rows.{All, All-upsert_row, All-select_where, All-order_rows}
use any2helios_db.Loader.{find_table}
use any2helios_db.Loader.Plan.{
  Probe, PlanSettings, PlanState, PlanError, put_chunk, put_table, or_nil, tables_by_fqn,
  recorded_names, vanished_names, replay_row, plan_chunks, plan_fresh, replay_rows, after_rows,
  replay_tables, to_plan, replan, refuse_vanished, replay_plan, seen_before, settle_plan,
  must_reset, decide_snapshot, prepare, make_plan, plan,
}
use any2helios_db.Loader.Plan.Coherent.{
  Coherent, Bounded, Fresh, AllFresh-compute_chunks, All-put_chunk, replay_row-Coherent,
}

-- Every recorded row has its bounds, and every chunk of the plan reads and deletes the same range.
abbrev pub Good : PlanState → Type 0
Good p = All Bounded p.ledger.chunks × All Coherent p.chunks

Sum-cases :
    (x : PlanError ⊎ Chunk) → ((e : PlanError) × (x ≡ inl e)) ⊎ ((ch : Chunk) × (x ≡ inr ch))
Sum-cases (inl e) = inl (e, refl)
Sum-cases (inr ch) = inr (ch, refl)

module _ (P : Probe) (G : PlanSettings) where
  plan_chunks-Good :
      (t : Table) (cs : List Chunk) (p : PlanState)
      → All Fresh cs
      → Good p
      → Good (plan_chunks P G t cs p)
  unfolding plan_chunks add_chunk
  plan_chunks-Good t [] p hs h = h
  plan_chunks-Good t (ch ∷ cs) p hs h = plan_chunks-Good t cs _ hs.1 (
    All-upsert_row Bounded (is_chunk G.run_id (fqn t) ch.chunk_id)
        (new_chunk G.run_id (fqn t) ch.chunk_id (source_where ch) (record_bound ch.lo)
          (record_bound ch.hi))
        p.ledger.chunks h.0 hs.0.1,
    All-put_chunk Coherent ch p.chunks hs.0.0 h.1,
  )

  plan_fresh-Good : (ts : List Table) (p : PlanState) → Good p → Good (plan_fresh P G ts p)
  unfolding plan_fresh add_table
  plan_fresh-Good [] p h = h
  plan_fresh-Good (t ∷ ts) p h =
      let cs = or_nil (compute_chunks P.numeric_pk_bounds t G.target_chunks) in
      plan_fresh-Good ts _
        (plan_chunks-Good t cs _ (AllFresh-compute_chunks P.numeric_pk_bounds t G.target_chunks) h)

  replay_rows-Good :
      (t : Table) (rows : List ChunkRecord) (p : PlanState)
      → All Bounded rows
      → Good p
      → Good (replay_rows P G t rows p).0
  replay_rows-Good t [] p hs h = h
  replay_rows-Good t (rc ∷ rows) p hs h = elim (Sum-cases (replay_row t rc)) [
    | inl (e, is) ↦ rw (is, replay_rows) h
    | inr (ch, is) ↦
        rw (is, replay_rows)
          (replay_rows-Good t rows (record p { chunks = put_chunk ch p.chunks }) hs.1
            (h.0, All-put_chunk Coherent ch p.chunks (replay_row-Coherent t rc hs.0 ch is) h.1))
  ]

  after_rows-Good :
      (found : PlanState × (PlanError ⊎ Unit {0}))
      (later : PlanState → PlanState × (PlanError ⊎ List String))
      → Good found.0
      → ((p : PlanState) → Good p → Good (later p).0)
      → Good (after_rows P G found later).0
  after_rows-Good (p, inl e) later h k = h
  after_rows-Good (p, inr u) later h k = k p h

  replay_tables-Good :
      (trust_all : Bool) (recorded : List ChunkRecord) (source : List Table)
      (names salvaged : List String) (p : PlanState)
      → All Bounded recorded
      → Good p
      → Good (replay_tables P G trust_all recorded source names salvaged p).0
  unfolding replay_tables delete_table_chunks
  replay_tables-Good trust_all recorded source [] salvaged p hs h = h
  replay_tables-Good trust_all recorded source (name ∷ names) salvaged p hs h =
      elim (Option-cases (find_table source name)) [
        | inl e ↦ rw (e, replay_tables) h
        | inr (t, e) ↦
            elim (Bool-cases (not trust_all && not (table_has_progress G.run_id name p.ledger))) [
              | inl is ↦
                  rw (e, is, replay_tables)
                    (replay_tables-Good trust_all recorded source names (salvaged ++ name ∷ [])
                      (record p { ledger = delete_table_chunks G.run_id name p.ledger }) hs
                      (
                        All-select_where Bounded
                            (λ (r : ChunkRecord). not (of_table G.run_id name r)) p.ledger.chunks
                            h.0,
                        h.1,
                      ))
              | inr is ↦
                  let rows =
                    select_where (λ (rc : ChunkRecord). str_eq rc.table_fqn name) recorded in
                  let known : PlanState = record p { tables = put_table t p.tables } in
                  rw (e, is, replay_tables)
                    (after_rows-Good (replay_rows P G t rows known)
                      (replay_tables P G trust_all recorded source names salvaged)
                      (replay_rows-Good t rows known
                        (All-select_where Bounded (λ (rc : ChunkRecord). str_eq rc.table_fqn name)
                          recorded hs)
                        h)
                      (λ q. replay_tables-Good trust_all recorded source names salvaged q hs))
            ]
      ]

  module _ (before : String → String → Bool) where
    replan-Good :
        (names : List String) (found : PlanState × (PlanError ⊎ List String))
        → Good found.0
        → Good (replan P G before names found).0
    replan-Good names (p, inl e) h = h
    replan-Good names (p, inr salvaged) h =
        plan_fresh-Good (to_plan P G names salvaged G.schema) p h

    refuse_vanished-Good :
        (names : List String) (p : PlanState) (next : PlanState × (PlanError ⊎ Unit {0}))
        → Good p
        → Good next.0
        → Good (refuse_vanished P G before names p next).0
    refuse_vanished-Good [] p next h k = k
    refuse_vanished-Good (n ∷ ns) p next h k = h

    replay_plan-Good :
        (trust_all : Bool) (p : PlanState) → Good p → Good (replay_plan P G before trust_all p).0
    unfolding replay_plan get_chunks
    replay_plan-Good trust_all p h =
        let recorded = get_chunks before G.run_id none p.ledger in
        let source = tables_by_fqn G.schema [] in
        let names = recorded_names recorded [] in
        let bounded : All Bounded recorded = All-order_rows before Bounded _ (
          All-select_where Bounded (λ (r : ChunkRecord). of_run G.run_id r && in_table none r)
            p.ledger.chunks h.0) in
        refuse_vanished-Good (vanished_names source names) p _ h (
          replan-Good names (replay_tables P G trust_all recorded source names [] p)
            (replay_tables-Good trust_all recorded source names [] p bounded h))

    settle_plan-Good :
        (found : PlanState × (PlanError ⊎ Unit {0}))
        → Good found.0
        → Good (settle_plan P G before found).0
    unfolding mark_plan_complete set_watermark
    settle_plan-Good (p, inl e) h = (h.0, tt)
    settle_plan-Good (p, inr u) h = h

    settle_refused :
        (found : PlanState × (PlanError ⊎ Unit {0})) (e : PlanError)
        → (settle_plan P G before found).1 ≡ inl e
        → (settle_plan P G before found).0.chunks ≡ []
    settle_refused (p, inl d) e h = refl
    settle_refused (p, inr u) e h = ground (arith, h)

    decide_snapshot-chunks :
        (do_reset : Bool) (m : Manifest) → (decide_snapshot P G before do_reset m).chunks ≡ m.chunks
    unfolding set_snapshot set_watermark
    decide_snapshot-chunks do_reset m =
        elim (Bool-cases (do_reset || not (snapshot_decided G.run_id m))) [
          | inl is ↦ rw is refl
          | inr is ↦ rw is refl
        ]

    prepare-Bounded :
        (m : Manifest) → All Bounded m.chunks → All Bounded (prepare P G before m).chunks
    unfolding prepare start_run reset_run mark_plan_complete set_watermark
    prepare-Bounded m h =
        let m1 = start_run G.run_id G.config_hash "" "" m in
        let m2 = if must_reset P G before m then reset_run G.run_id m1 else m1 in
        let bounded : All Bounded m2.chunks = elim (Bool-cases (must_reset P G before m)) [
          | inl is ↦
              rw is
                (All-select_where Bounded (λ (r : ChunkRecord). not (of_run G.run_id r)) m.chunks h)
          | inr is ↦ rw is h
        ] in
        subst (All Bounded)
          (sym (
            decide_snapshot-chunks (must_reset P G before m)
              (mark_plan_complete G.run_id false m2)))
          bounded

    make_plan-Good :
        (is_resume plan_recorded : Bool) (p : PlanState)
        → Good p
        → Good (make_plan P G before is_resume plan_recorded p).0
    unfolding make_plan
    make_plan-Good true plan_recorded p h = replay_plan-Good plan_recorded p h
    make_plan-Good false plan_recorded p h = plan_fresh-Good G.schema p h

    -- A plan over a ledger whose recorded ranges have their bounds, whatever the configuration and the
    -- keys of the tables have become: the ledger's ranges have their bounds again, and no chunk that
    -- the loader is left with reads one range and deletes another. It is the whole table for both, or
    -- one range of one column. A plan that is refused leaves no chunk.
    pub plan-Good :
        (m : Manifest)
        → All Bounded m.chunks
        → All Bounded (plan P G before m).0.ledger.chunks
          × All Coherent (plan P G before m).0.chunks
          × ((e : PlanError) → (plan P G before m).1 ≡ inl e → (plan P G before m).0.chunks ≡ [])
    unfolding plan
    plan-Good m h =
        let p : PlanState = record { ledger = prepare P G before m; chunks = []; tables = [] } in
        let is_resume =
          seen_before P G before (get_run G.run_id m) && not (must_reset P G before m) in
        let found = make_plan P G before is_resume (plan_complete G.run_id m) p in
        let (bounded, coherent) =
          settle_plan-Good found
            (make_plan-Good is_resume (plan_complete G.run_id m) p (prepare-Bounded m h, tt)) in
        (bounded, coherent, settle_refused found)
