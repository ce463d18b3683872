-- ===== src/Ledger/Written.antt =====
-- Every ledger that the writes lead to.
use mathlib.Core.Bool.{true≢false}
use any2helios_db.Prelude.{
  ℕ, String, ◌≡◌, refl, sym, ◌∙◌, subst, Bool, true, false, not, Option, List, [], ◌∷◌, ◌++◌,
  str_eq, eq_iff, arith, Bool-cases, inl, inr,
}
use any2helios_db.Ledger.{
  pending, TableRecord, ChunkRecord, Manifest, update_where, select_where, any_where, count_where,
  upsert_row,
}
use any2helios_db.Ledger.Chunks.{
  of_run, of_table, is_chunk, is_table, new_chunk, Mark, stamp, is_interrupted, add_table,
  add_chunk, set_chunk_state, recover, reset_run, delete_table_chunks,
}
use any2helios_db.Ledger.Chunks.Rows.{
  All, All-mono, All-update_where, All-select_where, All-snoc, All-upsert_row,
}
use any2helios_db.Ledger.Chunks.Counts.{
  IsCounted, set_chunk_state-IsCounted, recover-IsCounted, reset_run-IsCounted,
  delete_table_chunks-IsCounted, add_chunk-IsCounted,
}

-- Every chunk is of a table that the ledger has.
abbrev pub IsRegistered : Manifest → Type 0
IsRegistered m =
    All (λ (r : ChunkRecord). any_where (is_table r.run_id r.table_fqn) m.tables ≡ true) m.chunks

-- The ledgers that the writes to tables and chunks lead to. A chunk is added to a table that is there.
pub data Written : Manifest → Type 0 where
  opened : (m : Manifest) → m.tables ≡ [] → m.chunks ≡ [] → Written m
  named :
      {m : Manifest}
      → Written m
      → (run name target : String) (n : ℕ) → Written (add_table run name target n m)
  added :
      {m : Manifest}
      → Written m
      → (run name id : String) (predicate lo hi : Option String)
      → any_where (is_table run name) m.tables ≡ true
      → Written (add_chunk run name id predicate lo hi m)
  stamped :
      {m : Manifest}
      → Written m
      → (run name id : String) (k : Mark) → Written (set_chunk_state run name id k m)
  resumed : {m : Manifest} → Written m → (run : String) → Written (recover run m).0
  emptied : {m : Manifest} → Written m → (run : String) → Written (reset_run run m)
  dropped :
      {m : Manifest} → Written m → (run name : String) → Written (delete_table_chunks run name m)

module _ (test : TableRecord → Bool) where
  any_where-update :
      (which : TableRecord → Bool) (change : TableRecord → TableRecord)
      → ((t : TableRecord) → test (change t) ≡ test t)
      → (rows : List TableRecord)
      → any_where test (update_where which change rows) ≡ any_where test rows
  any_where-update which change f [] = refl
  any_where-update which change f (t ∷ ts) = elim (Bool-cases (which t)) [
    | inl is ↦ rw (is, f t, any_where-update which change f ts) refl
    | inr is ↦ rw (is, any_where-update which change f ts) refl
  ]

  any_where-snoc :
      (rows : List TableRecord) (t : TableRecord)
      → any_where test rows ≡ true
      → any_where test (rows ++ t ∷ []) ≡ true
  any_where-snoc [] t h = ground (arith, h)
  any_where-snoc (u ∷ us) t h = elim (Bool-cases (test u)) [
    | inl is ↦ rw is refl
    | inr is ↦ rw is (any_where-snoc us t (ground (arith, h, is)))
  ]

  any_where-upsert :
      (which : TableRecord → Bool) (new : TableRecord) (change : TableRecord → TableRecord)
      → ((t : TableRecord) → test (change t) ≡ test t)
      → (rows : List TableRecord) → any_where test rows ≡ true
      → any_where test (upsert_row which new change rows) ≡ true
  any_where-upsert which new change f rows h = elim (Bool-cases (any_where which rows)) [
    | inl is ↦ rw is (any_where-update which change f rows ∙ h)
    | inr is ↦ rw is (any_where-snoc rows new h)
  ]

-- A table that the ledger does not have has no chunks.
count_where-unregistered :
    (run name : String) (tables : List TableRecord) (rows : List ChunkRecord)
    → any_where (is_table run name) tables ≡ false
    → All (λ (r : ChunkRecord). any_where (is_table r.run_id r.table_fqn) tables ≡ true) rows
    → count_where (of_table run name) rows ≡ 0
count_where-unregistered run name tables [] h hs = refl
count_where-unregistered run name tables (r ∷ rs) h hs = elim (Bool-cases (of_table run name r)) [
  | inr is ↦ rw (is, count_where-unregistered run name tables rs h hs.1) (omega arith)
  | inl is ↦
      let a : str_eq r.run_id run ≡ true = ground (arith, is) in
      let b : str_eq r.table_fqn name ≡ true = ground (arith, is) in
      let here : any_where (is_table run name) tables ≡ true =
        subst (λ (x : String). any_where (is_table x name) tables ≡ true)
          ((eq_iff r.run_id run).0 a)
          (subst (λ (y : String). any_where (is_table r.run_id y) tables ≡ true)
            ((eq_iff r.table_fqn name).0 b) hs.0) in
      absurd (true≢false (sym here ∙ h))
]

add_table-IsCounted :
    (run name target : String) (n : ℕ) (m : Manifest)
    → IsCounted m
    → IsRegistered m
    → IsCounted (add_table run name target n m)
unfolding add_table
add_table-IsCounted run name target n m h reg =
    elim (Bool-cases (any_where (is_table run name) m.tables)) [
      | inl is ↦
          let made : (add_table run name target n m).tables
              ≡ update_where (is_table run name)
                  (λ (t : TableRecord). record t {
                    target_table = target;
                    total_rows_est = n;
                    status = pending;
                  })
                  m.tables =
            rw is refl in
          subst
            (All (λ (t : TableRecord).
              t.total_chunks ≡ count_where (of_table t.run_id t.table_fqn) m.chunks))
            (sym made)
            (All-update_where (is_table run name) _ (λ t e is. e) (λ t e is. e) m.tables h)
      | inr is ↦
          let new : TableRecord = record {
            run_id = run;
            table_fqn = name;
            target_table = target;
            total_chunks = 0;
            total_rows_est = n;
            status = pending;
          } in
          let made : (add_table run name target n m).tables ≡ m.tables ++ new ∷ [] = rw is refl in
          let P = λ (t : TableRecord).
            t.total_chunks ≡ count_where (of_table t.run_id t.table_fqn) m.chunks in
          subst (All P) (sym made) (
            All-snoc P m.tables new h
              (sym (count_where-unregistered run name m.tables m.chunks is reg)))
    ]

-- In every ledger that the writes lead to, the stored count of every table is that of its chunks, and
-- every chunk is of a table that the ledger has.
pub Written-IsCounted : (m : Manifest) → Written m → IsCounted m × IsRegistered m
unfolding add_table add_chunk set_chunk_state recover reset_run delete_table_chunks
Written-IsCounted m (opened _ no_tables no_chunks) = (
  subst
      (All (λ (t : TableRecord).
        t.total_chunks ≡ count_where (of_table t.run_id t.table_fqn) m.chunks))
      (sym no_tables) tt,
  subst (All (λ (r : ChunkRecord). any_where (is_table r.run_id r.table_fqn) m.tables ≡ true))
      (sym no_chunks) tt,
)
Written-IsCounted _ (named {m} w run name target n) =
    let (counted, registered) = Written-IsCounted m w in
    (
      add_table-IsCounted run name target n m counted registered,
      All-mono
          (λ r h.
            any_where-upsert (is_table r.run_id r.table_fqn) (is_table run name) _ _ (λ t. refl)
              m.tables h)
          m.chunks registered,
    )
Written-IsCounted _ (added {m} w run name id predicate lo hi known) =
    let (counted, registered) = Written-IsCounted m w in
    let new = new_chunk run name id predicate lo hi in
    (
      add_chunk-IsCounted run name id predicate lo hi m counted,
      All-mono
          (λ r h.
            any_where-update (is_table r.run_id r.table_fqn) (is_table run name) _ (λ t. refl)
              m.tables
            ∙ h)
          (upsert_row (is_chunk run name id) new (λ r. r) m.chunks)
          (All-upsert_row
            (λ (r : ChunkRecord). any_where (is_table r.run_id r.table_fqn) m.tables ≡ true)
            (is_chunk run name id) new m.chunks registered known),
    )
Written-IsCounted _ (stamped {m} w run name id k) =
    let (counted, registered) = Written-IsCounted m w in
    (
      set_chunk_state-IsCounted run name id k m counted,
      All-update_where (is_chunk run name id) (stamp k) (λ r h is. h) (λ r h is. h) m.chunks
          registered,
    )
Written-IsCounted _ (resumed {m} w run) =
    let (counted, registered) = Written-IsCounted m w in
    (
      recover-IsCounted run m counted,
      All-update_where (is_interrupted run) _ (λ r h is. h) (λ r h is. h) m.chunks registered,
    )
Written-IsCounted _ (emptied {m} w run) =
    let (counted, registered) = Written-IsCounted m w in
    (
      reset_run-IsCounted run m counted,
      All-mono
          (λ r h.
            any_where-update (is_table r.run_id r.table_fqn)
              (λ (t : TableRecord). str_eq t.run_id run) _ (λ t. refl) m.tables
            ∙ h)
          (select_where (λ (r : ChunkRecord). not (of_run run r)) m.chunks)
          (All-select_where _ (λ (r : ChunkRecord). not (of_run run r)) m.chunks registered),
    )
Written-IsCounted _ (dropped {m} w run name) =
    let (counted, registered) = Written-IsCounted m w in
    (
      delete_table_chunks-IsCounted run name m counted,
      All-mono
          (λ r h.
            any_where-update (is_table r.run_id r.table_fqn) (is_table run name) _ (λ t. refl)
              m.tables
            ∙ h)
          (select_where (λ (r : ChunkRecord). not (of_table run name r)) m.chunks)
          (All-select_where _ (λ (r : ChunkRecord). not (of_table run name r)) m.chunks registered),
    )
