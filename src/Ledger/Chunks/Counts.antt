-- ===== src/Ledger/Chunks/Counts.antt =====
-- The stored counts of chunks stay right under every write of the ledger.
use mathlib.Core.Bool.{true≢false}
use any2helios_db.Prelude.{
  String, ◌≡◌, refl, sym, ap, ◌∙◌, subst, Bool, true, false, not, ◌&&◌, Option, List, [], ◌∷◌, ◌++◌,
  str_eq, eq_iff, arith, Bool-cases, inl, inr,
}
use any2helios_db.Ledger.{
  pending, TableRecord, ChunkRecord, Manifest, update_where, select_where, any_where, count_where,
  upsert_row,
}
use any2helios_db.Ledger.Chunks.{
  of_run, of_table, is_chunk, is_table, new_chunk, Mark, stamp, is_interrupted, add_chunk,
  set_chunk_state, recover, reset_run, delete_table_chunks,
}
use any2helios_db.Ledger.Chunks.Rows.{All, All-mono, All-update_where}

-- The stored count of every table is that of its chunks.
abbrev pub IsCounted : Manifest → Type 0
IsCounted m =
    All (λ (t : TableRecord). t.total_chunks ≡ count_where (of_table t.run_id t.table_fqn) m.chunks)
      m.tables

-- A change that keeps the test of every row keeps the count.
count_where-update :
    (count : ChunkRecord → Bool) (test : ChunkRecord → Bool) (change : ChunkRecord → ChunkRecord)
    → ((r : ChunkRecord) → count (change r) ≡ count r)
    → (rows : List ChunkRecord)
    → count_where count (update_where test change rows) ≡ count_where count rows
count_where-update count test change f [] = refl
count_where-update count test change f (r ∷ rs) = elim (Bool-cases (test r)) [
  | inl is ↦ rw (is, f r, count_where-update count test change f rs) refl
  | inr is ↦ rw (is, count_where-update count test change f rs) refl
]

-- What is counted is what is left, where the selection leaves it.
count_where-select_kept :
    (count test : ChunkRecord → Bool)
    → ((r : ChunkRecord) → count r ≡ true → test r ≡ true)
    → (rows : List ChunkRecord)
    → count_where count (select_where test rows) ≡ count_where count rows
count_where-select_kept count test f [] = refl
count_where-select_kept count test f (r ∷ rs) = elim (Bool-cases (test r)) [
  | inl is ↦ rw (is, count_where-select_kept count test f rs) refl
  | inr is ↦ elim (Bool-cases (count r)) [
    | inl counted ↦ absurd (true≢false (sym (f r counted) ∙ is))
    | inr counted ↦ rw (is, counted, count_where-select_kept count test f rs) (omega arith)
  ]
]

-- Nothing is counted where the selection takes it away.
count_where-select_gone :
    (count test : ChunkRecord → Bool)
    → ((r : ChunkRecord) → count r ≡ true → test r ≡ false)
    → (rows : List ChunkRecord) → count_where count (select_where test rows) ≡ 0
count_where-select_gone count test f [] = refl
count_where-select_gone count test f (r ∷ rs) = elim (Bool-cases (test r)) [
  | inr is ↦ rw (is, count_where-select_gone count test f rs) refl
  | inl is ↦ elim (Bool-cases (count r)) [
    | inl counted ↦ absurd (true≢false (sym is ∙ f r counted))
    | inr counted ↦ rw (is, counted, count_where-select_gone count test f rs) (omega arith)
  ]
]

pub set_chunk_state-IsCounted :
    (run name id : String) (k : Mark) (m : Manifest)
    → IsCounted m
    → IsCounted (set_chunk_state run name id k m)
unfolding set_chunk_state
set_chunk_state-IsCounted run name id k m =
    All-mono
      (λ t e.
        e
        ∙ sym (
            count_where-update (of_table t.run_id t.table_fqn) (is_chunk run name id) (stamp k)
              (λ r. refl) m.chunks))
      m.tables

pub recover-IsCounted : (run : String) (m : Manifest) → IsCounted m → IsCounted (recover run m).0
unfolding recover
recover-IsCounted run m =
    All-mono
      (λ t e.
        e
        ∙ sym (
            count_where-update (of_table t.run_id t.table_fqn) (is_interrupted run)
              (λ (r : ChunkRecord). record r { state = pending }) (λ r. refl) m.chunks))
      m.tables

-- A row that a table counts stands under the table's keys.
of_table-keys :
    (t : TableRecord) (r : ChunkRecord)
    → of_table t.run_id t.table_fqn r ≡ true
    → (r.run_id ≡ t.run_id) × (r.table_fqn ≡ t.table_fqn)
of_table-keys t r h =
    let a : str_eq r.run_id t.run_id ≡ true = ground (arith, h) in
    let b : str_eq r.table_fqn t.table_fqn ≡ true = ground (arith, h) in
    ((eq_iff r.run_id t.run_id).0 a, (eq_iff r.table_fqn t.table_fqn).0 b)

of_table-is_table :
    (run name : String) (t : TableRecord) (r : ChunkRecord)
    → of_table t.run_id t.table_fqn r ≡ true
    → of_table run name r ≡ is_table run name t
of_table-is_table run name t r h =
    let (a, b) = of_table-keys t r h in
    ap (λ (x : String). str_eq x run && str_eq r.table_fqn name) a
    ∙ ap (λ (x : String). str_eq t.run_id run && str_eq x name) b

pub reset_run-IsCounted : (run : String) (m : Manifest) → IsCounted m → IsCounted (reset_run run m)
unfolding reset_run
reset_run-IsCounted run m =
    All-update_where (λ (t : TableRecord). str_eq t.run_id run)
      (λ (t : TableRecord). record t { status = pending; total_chunks = 0 })
      (λ t e is. sym (
        count_where-select_gone (of_table t.run_id t.table_fqn)
          (λ (r : ChunkRecord). not (of_run run r))
          (λ r counted.
            ap (λ (x : String). not (str_eq x run)) (of_table-keys t r counted).0 ∙ ap not is)
          m.chunks))
      (λ t e is.
        e
        ∙ sym (
            count_where-select_kept (of_table t.run_id t.table_fqn)
              (λ (r : ChunkRecord). not (of_run run r))
              (λ r counted.
                ap (λ (x : String). not (str_eq x run)) (of_table-keys t r counted).0 ∙ ap not is)
              m.chunks))
      m.tables

pub delete_table_chunks-IsCounted :
    (run name : String) (m : Manifest) → IsCounted m → IsCounted (delete_table_chunks run name m)
unfolding delete_table_chunks
delete_table_chunks-IsCounted run name m =
    All-update_where (is_table run name)
      (λ (t : TableRecord). record t { status = pending; total_chunks = 0 })
      (λ t e is. sym (
        count_where-select_gone (of_table t.run_id t.table_fqn)
          (λ (r : ChunkRecord). not (of_table run name r))
          (λ r counted. ap not (of_table-is_table run name t r counted ∙ is)) m.chunks))
      (λ t e is.
        e
        ∙ sym (
            count_where-select_kept (of_table t.run_id t.table_fqn)
              (λ (r : ChunkRecord). not (of_table run name r))
              (λ r counted. ap not (of_table-is_table run name t r counted ∙ is)) m.chunks))
      m.tables

count_where-snoc :
    (count : ChunkRecord → Bool) (rows : List ChunkRecord) (r : ChunkRecord)
    → count r ≡ false
    → count_where count (rows ++ r ∷ []) ≡ count_where count rows
count_where-snoc count [] r h = rw h (omega arith)
count_where-snoc count (q ∷ qs) r h = rw (count_where-snoc count qs r h) refl

count_where-upsert :
    (count test : ChunkRecord → Bool) (new : ChunkRecord) (rows : List ChunkRecord)
    → count new ≡ false
    → count_where count (upsert_row test new (λ r. r) rows) ≡ count_where count rows
count_where-upsert count test new rows h = elim (Bool-cases (any_where test rows)) [
  | inl is ↦ rw is (count_where-update count test (λ r. r) (λ r. refl) rows)
  | inr is ↦ rw is (count_where-snoc count rows new h)
]

pub add_chunk-IsCounted :
    (run name id : String) (predicate lo hi : Option String) (m : Manifest)
    → IsCounted m
    → IsCounted (add_chunk run name id predicate lo hi m)
unfolding add_chunk
add_chunk-IsCounted run name id predicate lo hi m =
    let new = new_chunk run name id predicate lo hi in
    let rows = upsert_row (is_chunk run name id) new (λ r. r) m.chunks in
    All-update_where (is_table run name)
      (λ (t : TableRecord). record t { total_chunks = count_where (of_table run name) rows })
      (λ t e is.
        let a : str_eq t.run_id run ≡ true = ground (arith, is) in
        let b : str_eq t.table_fqn name ≡ true = ground (arith, is) in
        ap (λ (x : String). count_where (of_table x name) rows) (sym ((eq_iff t.run_id run).0 a))
        ∙ ap (λ (x : String). count_where (of_table t.run_id x) rows)
            (sym ((eq_iff t.table_fqn name).0 b)))
      (λ t e is.
        let other : of_table t.run_id t.table_fqn new ≡ false =
          elim (Bool-cases (of_table t.run_id t.table_fqn new)) [
            | inr other ↦ other
            | inl own ↦
                let (a, b) = of_table-keys t new own in
                let self : is_table run name t ≡ true =
                  subst (λ (x : String). (str_eq x run && str_eq t.table_fqn name) ≡ true) a
                    (subst (λ (y : String). (str_eq run run && str_eq y name) ≡ true) b
                      (rw ((eq_iff run run).1 refl, (eq_iff name name).1 refl) refl)) in
                absurd (true≢false (sym self ∙ is))
          ] in
        e
        ∙ sym (
            count_where-upsert (of_table t.run_id t.table_fqn) (is_chunk run name id) new m.chunks
              other))
      m.tables
