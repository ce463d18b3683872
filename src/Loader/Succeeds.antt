-- ===== src/Loader/Succeeds.antt =====
-- A run in which no call fails.
use any2helios_db.Prelude.{
  true, ℕ, suc, String, ◌≡◌, refl, sym, ap, ◌∙◌, subst, Bool, false, ◌&&◌, Option, none, some, List,
  [], ◌∷◌, ◌⊎◌, inl, inr, arith, ltb, length,
}
use any2helios_db.Catalog.{Table, target_name}
use any2helios_db.Chunking.{Chunk, target_where}
use any2helios_db.Ledger.{pending, ChunkRecord, update_where, select_where, get_snapshot}
use any2helios_db.Ledger.Chunks.{
  of_run, is_chunk, is_waiting, in_table, is_interrupted, stamp, set_chunk_state, recover,
  pending_chunks, order_rows,
}
use any2helios_db.Ledger.Chunks.Rows.{
  All, All-update_where, All-select_passing, All-order_rows, Idle-recover,
}
use any2helios_db.Loader.Held.{chunk_id-find_chunk}
use any2helios_db.Loader.Covered.{Covered, Covered-pending, Covered-loaded, select_where_done}
use any2helios_db.Loader.{
  Endpoints, Stream, Loader, World, find_chunk, find_table, Phase, queued, reading, connected,
  marked, written, in_progress_mark, loaded_mark, mark_row, load_chunk_range, after_connect,
  after_load, begin_load, fold_columns, stream_of, step, drive, safe_load, load_each, recovered,
  load_pending,
}

-- No call fails.
pub record Succeeds {S : Type 0} (E : Endpoints S) : Type 0 where
  pub source_connects : (s : S) → (E.connect_source s).1 ≡ inr tt
  pub target_connects : (s : S) → (E.connect_target s).1 ≡ inr tt
  pub range_loads :
      (name : String) (columns : List String) (rows : Stream) (clause : Option String) (copy : Bool)
      (s : S)
      → (n : ℕ) × ((E.load_range name columns rows clause copy s).1 ≡ inr n)

module _ {S : Type 0} where
  after_connect_ok :
      (r : ChunkRecord) (ch : Chunk) (next : Phase) (w : World S) (found : S × (String ⊎ Unit {0}))
      → found.1 ≡ inr tt
      → after_connect r ch next w found ≡ (next, record w { target = found.0 })
  after_connect_ok r ch next w (s, inl e) h = ground (arith, h)
  after_connect_ok r ch next w (s, inr u) h = refl

  after_load_ok :
      (r : ChunkRecord) (ch : Chunk) (n : ℕ) (w : World S) (found : S × (String ⊎ ℕ))
      → found.1 ≡ inr n
      → after_load r ch w found ≡ (written r ch n, record w { target = found.0 })
  after_load_ok r ch n w (s, inl e) h = ground (arith, h)
  after_load_ok r ch n w (s, inr m) h = ap (λ (k : String ⊎ ℕ). after_load r ch w (s, k)) h

module _ {S : Type 0} (E : Endpoints S) (cut : String → String) (L : Loader) (ok : Succeeds E) where
  -- The plan has the row's chunk and its table.
  abbrev Findable : ChunkRecord → Type 0
  Findable r =
      (ch : Chunk) × (find_chunk L.chunks r.chunk_id ≡ some ch)
      × (t : Table) × (find_table L.tables r.table_fqn ≡ some t)

  -- It does where the row is of the run.
  abbrev pub InPlan : ChunkRecord → Type 0
  InPlan r = of_run L.run_id r ≡ true → Findable r

  abbrev LoadedRows : ChunkRecord → World S → World S → Type 0
  LoadedRows r w w' =
      (n : ℕ) × (w'.ledger.chunks
        ≡ update_where (is_chunk L.run_id r.table_fqn r.chunk_id) (stamp (loaded_mark n)) (
            update_where (is_chunk L.run_id r.table_fqn r.chunk_id) (stamp in_progress_mark)
              w.ledger.chunks))

  -- One effect of a thread, where it is known.
  drive-step :
      (n : ℕ) (p : Phase) (w : World S) (next : Phase × World S)
      → step E cut L p w ≡ next
      → drive E cut L (suc n) p w ≡ drive E cut L n next.0 next.1
  unfolding drive
  drive-step n p w next h = ap (λ (x : Phase × World S). drive E cut L n x.0 x.1) h

  queued_ok :
      (r : ChunkRecord) (ch : Chunk) (t : Table) (w : World S)
      → find_chunk L.chunks r.chunk_id ≡ some ch
      → find_table L.tables r.table_fqn ≡ some t
      → step E cut L (queued r) w
        ≡ (reading r t ch, record w { target = (E.connect_source w.target).0 })
  unfolding step
  queued_ok r ch t w fc ft =
      ap (λ (o : Option Chunk). begin_load E cut L r o (find_table L.tables r.table_fqn) w) fc
      ∙ ap (λ (o : Option Table). begin_load E cut L r (some ch) o w) ft
      ∙ after_connect_ok r ch (reading r t ch) w (E.connect_source w.target)
          (ok.source_connects w.target)

  reading_ok :
      (r : ChunkRecord) (ch : Chunk) (t : Table) (w : World S)
      → step E cut L (reading r t ch) w ≡ (
        connected r t ch (get_snapshot L.run_id w.ledger),
        record w { target = (E.connect_target w.target).0 },
      )
  unfolding step
  reading_ok r ch t w =
      after_connect_ok r ch (connected r t ch (get_snapshot L.run_id w.ledger)) w
        (E.connect_target w.target) (ok.target_connects w.target)

  marked_ok :
      (r : ChunkRecord) (ch : Chunk) (t : Table) (token : Option String) (w : World S)
      → (n : ℕ) × (step E cut L (marked r t ch token) w
          ≡ (written r ch n, record w { target = (load_chunk_range E L t ch token w.target).0 }))
  unfolding step load_chunk_range
  marked_ok r ch t token w =
      let (n, e) =
        ok.range_loads (target_name t L.preserve_case) (fold_columns E L t.columns)
          (stream_of E L t ch token) (target_where ch L.preserve_case) L.use_copy w.target in
      (n, after_load_ok r ch n w (load_chunk_range E L t ch token w.target) e)

  safe_load_ok :
      (r : ChunkRecord) (w : World S) → Findable r → LoadedRows r w (safe_load E cut L r w)
  unfolding safe_load
  safe_load_ok r w (ch, fc, t, ft) =
      let w1 : World S = record w { target = (E.connect_source w.target).0 } in
      let w2 : World S = record w1 { target = (E.connect_target w1.target).0 } in
      let token = get_snapshot L.run_id w1.ledger in
      let w3 = mark_row L r.table_fqn ch.chunk_id in_progress_mark w2 in
      let (n, e) = marked_ok r ch t token w3 in
      let w4 : World S = record w3 { target = (load_chunk_range E L t ch token w3.target).0 } in
      let way : drive E cut L 5 (queued r) w ≡ drive E cut L 1 (written r ch n) w4 =
        drive-step 4 (queued r) w (reading r t ch, w1) (queued_ok r ch t w fc ft)
        ∙ drive-step 3 (reading r t ch) w1 (connected r t ch token, w2) (reading_ok r ch t w1)
        ∙ drive-step 2 (connected r t ch token) w2 (marked r t ch token, w3) (unfold step in refl)
        ∙ drive-step 1 (marked r t ch token) w3 (written r ch n, w4) e in
      let rows = λ (id : String).
        update_where (is_chunk L.run_id r.table_fqn id) (stamp (loaded_mark n)) (
          update_where (is_chunk L.run_id r.table_fqn id) (stamp in_progress_mark)
            w.ledger.chunks) in
      let last : (drive E cut L 1 (written r ch n) w4).1.ledger.chunks ≡ rows ch.chunk_id =
        unfold drive step set_chunk_state in refl in
      (
        n,
        ap (λ (x : Phase × World S). x.1.ledger.chunks) way
            ∙ last
            ∙ ap rows (chunk_id-find_chunk L.chunks r.chunk_id ch fc),
      )

  pub load_each_ok :
      (rows : List ChunkRecord) (w : World S)
      → All Findable rows
      → Covered L.run_id rows w.ledger.chunks
      → Covered L.run_id [] (load_each E cut L rows w).ledger.chunks
  unfolding load_each
  load_each_ok [] w planned h = h
  load_each_ok (r ∷ rs) w planned h =
      let (n, e) = safe_load_ok r w planned.0 in
      load_each_ok rs (safe_load E cut L r w) planned.1
        (subst (Covered L.run_id rs) (sym e) (Covered-loaded L.run_id r n rs w.ledger.chunks h))

  module _ (before : String → String → Bool) where
    -- A pass without threads loads all that waits.
    pub load_pending_ok :
        (parallel : Bool) (schedule : List ℕ) (w : World S)
        → (parallel && ltb 1 L.parallelism) ≡ false
        → All InPlan w.ledger.chunks
        → pending_chunks before L.run_id none
            (load_pending E cut L before parallel schedule w).ledger
          ≡ []
    unfolding load_pending recovered recover pending_chunks
    load_pending_ok parallel schedule w h planned =
        let w1 = recovered L w in
        let test = λ (r : ChunkRecord). is_waiting L.run_id r && in_table none r in
        let waiting = pending_chunks before L.run_id none w1.ledger in
        let planned1 : All InPlan w1.ledger.chunks =
          All-update_where (is_interrupted L.run_id)
            (λ (r : ChunkRecord). record r { state = pending }) (λ r known is. known)
            (λ r known is. known) w.ledger.chunks planned in
        let serial : (parallel && (ltb 1 L.parallelism && ltb 1 (length waiting))) ≡ false =
          ground (arith, h) in
        let covered =
          load_each_ok waiting w1
            (All-order_rows before Findable (select_where test w1.ledger.chunks) (
              All-select_passing {P = InPlan} test (λ r known is. known (ground (arith, is)))
                w1.ledger.chunks planned1))
            (Covered-pending L.run_id before w1.ledger.chunks
              (Idle-recover L.run_id w.ledger.chunks)) in
        rw serial (
          ap (order_rows before)
            (select_where_done L.run_id (load_each E cut L waiting w1).ledger.chunks covered))
