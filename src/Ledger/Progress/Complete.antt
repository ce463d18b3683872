-- ===== src/Ledger/Progress/Complete.antt =====
-- The monitor calls a run complete only when every chunk of it is loaded.
use mathlib.Core.Bool.{true≢false}
use any2helios_db.Prelude.{
  ℕ, ◌≤◌, String, ◌≡◌, refl, sym, ◌∙◌, subst, Bool, true, ◌&&◌, List, [], ◌∷◌, map, str_eq, eq_iff,
  length, arith, Bool-cases, inl, inr,
}
use any2helios_db.Ledger.{TableRecord, ChunkRecord, Manifest, select_where, count_where, any_where}
use any2helios_db.Ledger.Chunks.{of_run, of_table, is_table, is_done}
use any2helios_db.Ledger.Chunks.Rows.{All, All-mono, All-and}
use any2helios_db.Ledger.Progress.{
  TableProgress, known_total, done_in_table, table_progress, is_table_done, of_table_run,
  insert_table, order_tables, progress_snapshot,
}

module _ {A : Type 0} where
  count_where-le : (test : A → Bool) (rows : List A) → count_where test rows ≤ length rows
  count_where-le test [] = omega arith
  count_where-le test (r ∷ rs) = ground (arith, count_where-le test rs)

  -- Where as many pass as there are, all pass.
  All-count_where :
      (test : A → Bool) (rows : List A)
      → length rows ≤ count_where test rows
      → All (λ (r : A). test r ≡ true) rows
  All-count_where test [] h = tt
  All-count_where test (r ∷ rs) h = (
    ground (arith, h, count_where-le test rs),
    All-count_where test rs (ground (arith, h, count_where-le test rs)),
  )

  -- Where as many pass both tests as pass the first, the second follows from the first.
  count_both-le :
      (first second : A → Bool) (rows : List A)
      → count_where (λ (r : A). first r && second r) rows ≤ count_where first rows
  count_both-le first second [] = omega arith
  count_both-le first second (r ∷ rs) = ground (arith, count_both-le first second rs)

  All-count_both :
      (first second : A → Bool) (rows : List A)
      → count_where first rows ≤ count_where (λ (r : A). first r && second r) rows
      → All (λ (r : A). first r ≡ true → second r ≡ true) rows
  All-count_both first second [] h = tt
  All-count_both first second (r ∷ rs) h = (
    λ is. ground (arith, h, is, count_both-le first second rs),
    All-count_both first second rs (ground (arith, h, count_both-le first second rs)),
  )

  All-map :
      {B : Type 0} (P : B → Type 0) (f : A → B) (rows : List A)
      → All P (map f rows)
      → All (λ (r : A). P (f r)) rows
  All-map P f [] h = tt
  All-map P f (r ∷ rs) h = (h.0, All-map P f rs h.1)

  All-of_select_where :
      (P : A → Type 0) (test : A → Bool) (rows : List A)
      → All P (select_where test rows)
      → All (λ (r : A). test r ≡ true → P r) rows
  All-of_select_where P test [] h = tt
  All-of_select_where P test (r ∷ rs) h = elim (Bool-cases (test r)) [
    | inl is ↦
        let made : select_where test (r ∷ rs) ≡ r ∷ select_where test rs = rw is refl in
        let (one, rest) = subst (All P) made h in
        (λ passes. one, All-of_select_where P test rs rest)
    | inr is ↦
        let made : select_where test (r ∷ rs) ≡ select_where test rs = rw is refl in
        (
          λ passes. absurd (true≢false (sym passes ∙ is)),
          All-of_select_where P test rs (subst (All P) made h),
        )
  ]

  -- What holds of every pair.
  All-swap :
      {B : Type 0} (C : B → Type 0) (Q : B → A → Type 0) (bs : List B) (rows : List A)
      → All (λ (b : B). C b → All (Q b) rows) bs
      → All (λ (r : A). All (λ (b : B). C b → Q b r) bs) rows
  All-swap C Q bs [] h = tt
  All-swap C Q bs (r ∷ rs) h =
      (All-mono (λ b f c. (f c).0) bs h, All-swap C Q bs rs (All-mono (λ b f c. (f c).1) bs h))

  All-found :
      (P : A → Type 0) (test : A → Bool) (rows : List A)
      → All P rows
      → any_where test rows ≡ true
      → (r : A) × (test r ≡ true) × P r
  All-found P test [] h some_one = ground (arith, some_one)
  All-found P test (r ∷ rs) h some_one = elim (Bool-cases (test r)) [
    | inl is ↦ (r, is, h.0)
    | inr is ↦ All-found P test rs h.1 (ground (arith, some_one, is))
  ]

module _ (before : String → String → Bool) (P : TableRecord → Type 0) where
  All-of_insert_table :
      (t : TableRecord) (ts : List TableRecord) → All P (insert_table before t ts) → P t × All P ts
  All-of_insert_table t [] h = h
  All-of_insert_table t (u ∷ us) h = elim (Bool-cases (before u.table_fqn t.table_fqn)) [
    | inl is ↦
        let made : insert_table before t (u ∷ us) ≡ u ∷ insert_table before t us = rw is refl in
        let (one, rest) = subst (All P) made h in
        let (new, others) = All-of_insert_table t us rest in (new, (one, others))
    | inr is ↦
        let made : insert_table before t (u ∷ us) ≡ t ∷ u ∷ us = rw is refl in subst (All P) made h
  ]

  All-of_order_tables : (ts : List TableRecord) → All P (order_tables before ts) → All P ts
  unfolding order_tables
  All-of_order_tables [] h = tt
  All-of_order_tables (t ∷ ts) h =
      let (one, rest) = All-of_insert_table t (order_tables before ts) h in
      (one, All-of_order_tables ts rest)

-- `total_chunks` of the tables of the run counts their rows.
abbrev pub Counted : String → Manifest → Type 0
Counted run m =
    All
      (λ (t : TableRecord).
        of_table_run run t ≡ true
        → t.total_chunks ≡ count_where (of_table run t.table_fqn) m.chunks)
      m.tables

-- Every chunk of the run is of a table of the run.
abbrev pub Registered : String → Manifest → Type 0
Registered run m =
    All
      (λ (r : ChunkRecord).
        of_run run r ≡ true → any_where (is_table run r.table_fqn) m.tables ≡ true)
      m.chunks

-- A table that is shown as done has only done chunks.
table_done-All :
    (run : String) (chunks : List ChunkRecord) (t : TableRecord)
    → t.total_chunks ≡ count_where (of_table run t.table_fqn) chunks
    → is_table_done (table_progress run chunks t) ≡ true
    → All (λ (r : ChunkRecord). of_table run t.table_fqn r ≡ true → is_done r.state ≡ true) chunks
unfolding table_progress
table_done-All run chunks t total h =
    let n = count_where (of_table run t.table_fqn) chunks in
    let few : known_total t.total_chunks n ≤ count_where (done_in_table run t.table_fqn) chunks =
      ground (arith, h) in
    let known : known_total t.total_chunks n ≡ n = ground (arith, total) in
    All-count_both (of_table run t.table_fqn) (λ (r : ChunkRecord). is_done r.state) chunks
      (subst (λ (k : ℕ). k ≤ count_where (done_in_table run t.table_fqn) chunks) known few)

-- Where the stored counts are right and every chunk is of a table of the run, a snapshot that says
-- complete has every chunk of the run loaded or verified.
pub progress_snapshot_complete :
    (before : String → String → Bool) (run : String) (m : Manifest)
    → Counted run m
    → Registered run m
    → (progress_snapshot before run m).complete ≡ true
    → All (λ (r : ChunkRecord). of_run run r ≡ true → is_done r.state ≡ true) m.chunks
unfolding progress_snapshot
progress_snapshot_complete before run m counted registered h =
    let ours = select_where (of_table_run run) m.tables in
    let shown = map (table_progress run m.chunks) (order_tables before ours) in
    let enough : length shown ≤ count_where is_table_done shown = ground (arith, h) in
    let IsDone = λ (t : TableRecord). is_table_done (table_progress run m.chunks t) ≡ true in
    let done : All (λ (t : TableRecord). of_table_run run t ≡ true → IsDone t) m.tables =
      All-of_select_where IsDone (of_table_run run) m.tables (
        All-of_order_tables before IsDone ours (
          All-map (λ (p : TableProgress). is_table_done p ≡ true) (table_progress run m.chunks)
            (order_tables before ours) (All-count_where is_table_done shown enough))) in
    let Q = λ (t : TableRecord) (r : ChunkRecord).
      of_table run t.table_fqn r ≡ true → is_done r.state ≡ true in
    let C = λ (t : TableRecord). of_table_run run t ≡ true in
    let pairs : All (λ (r : ChunkRecord). All (λ (t : TableRecord). C t → Q t r) m.tables)
        m.chunks =
      All-swap C Q m.tables m.chunks (
        All-and (λ t f g ours. table_done-All run m.chunks t (f ours) (g ours)) m.tables counted
          done) in
    All-and
      (λ r found each of.
        let (t, is, done_if) =
          All-found (λ (t : TableRecord). C t → Q t r) (is_table run r.table_fqn) m.tables each
            (found of) in
        let a : str_eq t.run_id run ≡ true = ground (arith, is) in
        let b : str_eq t.table_fqn r.table_fqn ≡ true = ground (arith, is) in
        let c : str_eq r.table_fqn t.table_fqn ≡ true =
          (eq_iff r.table_fqn t.table_fqn).1 (sym ((eq_iff t.table_fqn r.table_fqn).0 b)) in
        done_if a (rw (of, c) refl))
      m.chunks registered pairs
