-- ===== src/Ledger/Chunks/Rows.antt =====
-- What the statements on the rows of the chunks keep.
use mathlib.Core.Bool.{true≢false}
use any2helios_db.Prelude.{
  String, ◌≡◌, refl, sym, ap, ◌∙◌, Bool, true, false, not, ◌&&◌, ◌||◌, none, List, [], ◌∷◌, ◌++◌,
  arith, if◌then◌else◌, str_eq, eq_iff, subst, Bool-cases, inl, inr,
}
use any2helios_db.Ledger.{
  upsert_row, any_where, State, pending, in_progress, loaded, verified, failed, ChunkRecord,
  same_state, update_where, select_where,
}
use any2helios_db.Ledger.Chunks.{
  of_run, is_chunk, is_interrupted, is_done, is_waiting, in_table, precedes, insert_row, order_rows,
}

module _ {A : Type 0} (P : A → Type 0) where
  abbrev pub All : List A → Type 0
  All [] = Unit
  All (r ∷ rs) = P r × All rs

  pub All-snoc : (rows : List A) (r : A) → All rows → P r → All (rows ++ r ∷ [])
  All-snoc [] r h k = (k, tt)
  All-snoc (q ∷ qs) r h k = (h.0, All-snoc qs r h.1 k)

  pub All-select_where : (test : A → Bool) (rows : List A) → All rows → All (select_where test rows)
  All-select_where test [] h = tt
  All-select_where test (r ∷ rs) h = elim (Bool-cases (test r)) [
    | inl is ↦ rw is (h.0, All-select_where test rs h.1)
    | inr is ↦ rw is (All-select_where test rs h.1)
  ]

module _ {A : Type 0} {P Q : A → Type 0} where
  pub All-mono : ((r : A) → P r → Q r) → (rows : List A) → All P rows → All Q rows
  All-mono f [] h = tt
  All-mono f (r ∷ rs) h = (f r h.0, All-mono f rs h.1)

  -- What is selected passes the test.
  pub All-select_passing :
      (test : A → Bool)
      → ((r : A) → P r → test r ≡ true → Q r)
      → (rows : List A) → All P rows
      → All Q (select_where test rows)
  All-select_passing test f [] h = tt
  All-select_passing test f (r ∷ rs) h = elim (Bool-cases (test r)) [
    | inl is ↦ rw is (f r h.0 is, All-select_passing test f rs h.1)
    | inr is ↦ rw is (All-select_passing test f rs h.1)
  ]

  pub All-and :
      {R : A → Type 0}
      → ((r : A) → P r → Q r → R r)
      → (rows : List A) → All P rows
      → All Q rows
      → All R rows
  All-and f [] h k = tt
  All-and f (r ∷ rs) h k = (f r h.0 k.0, All-and f rs h.1 k.1)

  -- A statement that sets what it changes.
  pub All-update_where :
      (test : A → Bool) (change : A → A)
      → ((r : A) → P r → test r ≡ true → Q (change r))
      → ((r : A) → P r → test r ≡ false → Q r)
      → (rows : List A) → All P rows
      → All Q (update_where test change rows)
  All-update_where test change f g [] h = tt
  All-update_where test change f g (r ∷ rs) h = elim (Bool-cases (test r)) [
    | inl is ↦ rw is (f r h.0 is, All-update_where test change f g rs h.1)
    | inr is ↦ rw is (g r h.0 is, All-update_where test change f g rs h.1)
  ]

module _ {A : Type 0} (P : A → Type 0) where
  -- A row is inserted, or a row of its key stays as it is.
  pub All-upsert_row :
      (test : A → Bool) (new : A) (rows : List A)
      → All P rows
      → P new
      → All P (upsert_row test new (λ r. r) rows)
  All-upsert_row test new rows h k = elim (Bool-cases (any_where test rows)) [
    | inl is ↦
        rw is (All-update_where {P = P} {Q = P} test (λ r. r) (λ r p is. p) (λ r p is. p) rows h)
    | inr is ↦ rw is (All-snoc P rows new h k)
  ]

-- The primary keys of the rows.
abbrev pub keys : List ChunkRecord → List (String × (String × String))
keys [] = []
keys (r ∷ rs) = (r.run_id, (r.table_fqn, r.chunk_id)) ∷ keys rs

pub keys-update_where :
    (test : ChunkRecord → Bool) (change : ChunkRecord → ChunkRecord)
    → ((r : ChunkRecord)
        → ((change r).run_id ≡ r.run_id)
          × ((change r).table_fqn ≡ r.table_fqn)
          × ((change r).chunk_id ≡ r.chunk_id))
    → (rows : List ChunkRecord) → keys (update_where test change rows) ≡ keys rows
keys-update_where test change f [] = refl
keys-update_where test change f (r ∷ rs) = elim (Bool-cases (test r)) [
  | inl is ↦
      let (run, name, id) = f r in rw (is, run, name, id, keys-update_where test change f rs) refl
  | inr is ↦ rw (is, keys-update_where test change f rs) refl
]

-- The row of the key has that table and that chunk.
pub is_chunk_parts :
    (run name id : String) (r : ChunkRecord)
    → is_chunk run name id r ≡ true
    → (r.run_id ≡ run) × (r.table_fqn ≡ name) × (r.chunk_id ≡ id)
is_chunk_parts run name id r h =
    let a : str_eq r.run_id run ≡ true = ground (arith, h) in
    let b : str_eq r.table_fqn name ≡ true = ground (arith, h) in
    let c : str_eq r.chunk_id id ≡ true = ground (arith, h) in
    ((eq_iff r.run_id run).0 a, (eq_iff r.table_fqn name).0 b, (eq_iff r.chunk_id id).0 c)

module _ (before : String → String → Bool) (P : ChunkRecord → Type 0) where
  All-insert_row :
      (r : ChunkRecord) (rows : List ChunkRecord)
      → P r
      → All P rows
      → All P (insert_row before r rows)
  All-insert_row r [] h hs = (h, tt)
  All-insert_row r (q ∷ qs) h hs = elim (Bool-cases (precedes before q r)) [
    | inl is ↦ rw is (hs.0, All-insert_row r qs h hs.1)
    | inr is ↦ rw is (h, hs)
  ]

  pub All-order_rows : (rows : List ChunkRecord) → All P rows → All P (order_rows before rows)
  unfolding order_rows
  All-order_rows [] h = tt
  All-order_rows (r ∷ rs) h = All-insert_row r (order_rows before rs) h.0 (All-order_rows rs h.1)

abbrev is_nil : List ChunkRecord → Bool
is_nil [] = true
is_nil (r ∷ rs) = false

is_nil-insert_row :
    (before : String → String → Bool) (r : ChunkRecord) (rows : List ChunkRecord)
    → is_nil (insert_row before r rows) ≡ false
is_nil-insert_row before r [] = refl
is_nil-insert_row before r (q ∷ qs) = elim (Bool-cases (precedes before q r)) [
  | inl is ↦ rw is refl
  | inr is ↦ rw is refl
]

is_nil-order_rows :
    (before : String → String → Bool) (rows : List ChunkRecord)
    → is_nil (order_rows before rows) ≡ is_nil rows
unfolding order_rows
is_nil-order_rows before [] = refl
is_nil-order_rows before (r ∷ rs) = is_nil-insert_row before r (order_rows before rs)

-- A state that neither waits nor is in progress is done.
pub is_done_of_rest :
    (s : State)
    → same_state s in_progress ≡ false
    → (same_state s pending || same_state s failed) ≡ false
    → is_done s ≡ true
is_done_of_rest pending h k = ground arith
is_done_of_rest in_progress h k = ground arith
is_done_of_rest loaded h k = refl
is_done_of_rest verified h k = refl
is_done_of_rest failed h k = ground arith

module _ (run : String) where
  -- No chunk of the run is in progress.
  abbrev pub Idle : List ChunkRecord → Type 0
  Idle = All (λ (r : ChunkRecord). is_interrupted run r ≡ false)

  -- No chunk of the run is in progress but that of the key.
  abbrev pub IdleBut : String → String → List ChunkRecord → Type 0
  IdleBut name id =
      All (λ (r : ChunkRecord). is_interrupted run r && not (is_chunk run name id r) ≡ false)

  pub Idle-recover :
      (rows : List ChunkRecord)
      → Idle (
          update_where
            (is_interrupted run)
            (λ (r : ChunkRecord). record r { state = pending })
            rows)
  Idle-recover [] = tt
  Idle-recover (r ∷ rs) = elim (Bool-cases (is_interrupted run r)) [
    | inl is ↦ rw is (ground arith, Idle-recover rs)
    | inr is ↦ rw is (is, Idle-recover rs)
  ]

  done_of_nil :
      (rows : List ChunkRecord)
      → Idle rows
      → is_nil (select_where (λ (r : ChunkRecord). is_waiting run r && in_table none r) rows) ≡ true
      → All (λ (r : ChunkRecord). of_run run r ≡ true → is_done r.state ≡ true) rows
  done_of_nil [] idle h = tt
  done_of_nil (r ∷ rs) idle h = elim (Bool-cases (is_waiting run r && in_table none r)) [
    | inl is ↦
        let e : is_nil
              (select_where (λ (q : ChunkRecord). is_waiting run q && in_table none q) (r ∷ rs))
            ≡ false =
          rw is refl in
        absurd (true≢false (sym h ∙ e))
    | inr is ↦
        let idle_head : (of_run run r && same_state r.state in_progress) ≡ false = idle.0 in
        (
          λ (of : of_run run r ≡ true).
              is_done_of_rest r.state (ground (arith, of, idle_head)) (ground (arith, of, is)),
          done_of_nil rs idle.1 (
              subst
                (λ (b : Bool).
                  is_nil (
                    if b
                    then r
                      ∷ select_where (λ (q : ChunkRecord). is_waiting run q && in_table none q) rs
                    else select_where (λ (q : ChunkRecord). is_waiting run q && in_table none q) rs)
                  ≡ true)
                is h),
        )
  ]

  -- A row is done where no chunk is in progress and none waits.
  pub is_done-Idle :
      (before : String → String → Bool) (rows : List ChunkRecord)
      → Idle rows
      → order_rows before
          (select_where (λ (r : ChunkRecord). is_waiting run r && in_table none r) rows)
        ≡ []
      → All (λ (r : ChunkRecord). of_run run r ≡ true → is_done r.state ≡ true) rows
  is_done-Idle before rows idle h = done_of_nil rows idle (
      sym (
        is_nil-order_rows before
          (select_where (λ (r : ChunkRecord). is_waiting run r && in_table none r) rows))
      ∙ ap is_nil h)
