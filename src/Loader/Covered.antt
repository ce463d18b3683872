-- ===== src/Loader/Covered.antt =====
-- Every row of a run is done or among those that a pass has still to load.
use mathlib.Core.Bool.{true≢false}
use any2helios_db.Prelude.{
  ℕ, String, ◌≡◌, refl, sym, ap, ◌∙◌, subst, Bool, true, false, ◌&&◌, ◌||◌, none, List, [], ◌∷◌,
  inl, inr, arith, Bool-cases, str_eq, eq_iff,
}
use any2helios_db.Ledger.{
  State, pending, in_progress, loaded, verified, failed, same_state, ChunkRecord, update_where,
  select_where, any_where,
}
use any2helios_db.Ledger.Chunks.{
  of_run, is_chunk, is_done, is_waiting, in_table, stamp, precedes, insert_row, order_rows,
}
use any2helios_db.Ledger.Chunks.Rows.{
  All, All-mono, All-and, is_done_of_rest, All-update_where, Idle, is_chunk_parts,
}
use any2helios_db.Loader.{in_progress_mark, loaded_mark}

any_where-insert_row :
    (before : String → String → Bool) (test : ChunkRecord → Bool) (r : ChunkRecord)
    (rows : List ChunkRecord)
    → any_where test (insert_row before r rows) ≡ (test r || any_where test rows)
any_where-insert_row before test r [] = refl
any_where-insert_row before test r (q ∷ qs) = elim (Bool-cases (precedes before q r)) [
  | inl is ↦ rw (is, any_where-insert_row before test r qs) (ground arith)
  | inr is ↦ rw is refl
]

any_where-order_rows :
    (before : String → String → Bool) (test : ChunkRecord → Bool) (rows : List ChunkRecord)
    → any_where test (order_rows before rows) ≡ any_where test rows
unfolding order_rows
any_where-order_rows before test [] = refl
any_where-order_rows before test (r ∷ rs) =
    any_where-insert_row before test r (order_rows before rs)
    ∙ ap (λ (b : Bool). test r || b) (any_where-order_rows before test rs)

waiting_of_done :
    (s : State)
    → (is_done s || false) ≡ true
    → (same_state s pending || same_state s failed) ≡ false
waiting_of_done pending h = ground (arith, h)
waiting_of_done in_progress h = refl
waiting_of_done loaded h = refl
waiting_of_done verified h = refl
waiting_of_done failed h = ground (arith, h)

not_waiting :
    (run : String) (r : ChunkRecord)
    → (of_run run r ≡ true → (is_done r.state || false) ≡ true)
    → (is_waiting run r && in_table none r) ≡ false
not_waiting run r h = elim (Bool-cases (of_run run r)) [
  | inl of ↦ rw (of, waiting_of_done r.state (h of)) refl
  | inr of ↦ rw of refl
]

module _ (run : String) where
  -- The row's own key is among the rows.
  abbrev Among : List ChunkRecord → ChunkRecord → Type 0
  Among rows q = any_where (is_chunk run q.table_fqn q.chunk_id) rows ≡ true

  is_chunk_self :
      (r : ChunkRecord) → of_run run r ≡ true → is_chunk run r.table_fqn r.chunk_id r ≡ true
  is_chunk_self r h =
      let a : str_eq r.table_fqn r.table_fqn ≡ true = (eq_iff r.table_fqn r.table_fqn).1 refl in
      let b : str_eq r.chunk_id r.chunk_id ≡ true = (eq_iff r.chunk_id r.chunk_id).1 refl in
      rw (h, a, b) refl

  Among-select_cons :
      (test : ChunkRecord → Bool) (q r : ChunkRecord) (rows : List ChunkRecord)
      → Among (select_where test rows) q
      → Among (select_where test (r ∷ rows)) q
  Among-select_cons test q r rows h = elim (Bool-cases (test r)) [
    | inl is ↦ rw is (ground (arith, h))
    | inr is ↦ rw is h
  ]

  Among-select_head :
      (test : ChunkRecord → Bool) (r : ChunkRecord) (rows : List ChunkRecord)
      → of_run run r ≡ true
      → test r ≡ true
      → Among (select_where test (r ∷ rows)) r
  Among-select_head test r rows of is = rw (is, is_chunk_self r of) refl

  -- A row of the run that a selection takes is among what it takes.
  Among-select_where :
      (test : ChunkRecord → Bool)
      → (rows : List ChunkRecord)
      → All
          (λ (q : ChunkRecord).
            of_run run q ≡ true → test q ≡ true → Among (select_where test rows) q)
          rows
  Among-select_where test [] = tt
  Among-select_where test (r ∷ rs) = (
    Among-select_head test r rs,
    All-mono (λ q among of takes. Among-select_cons test q r rs (among of takes)) rs
        (Among-select_where test rs),
  )

  -- Every row of the run is done or still to be loaded.
  abbrev pub Covered : List ChunkRecord → List ChunkRecord → Type 0
  Covered rest = All (λ (q : ChunkRecord).
      of_run run q ≡ true
      → (is_done q.state || any_where (is_chunk run q.table_fqn q.chunk_id) rest) ≡ true)

  pub Covered-pending :
      (before : String → String → Bool) (rows : List ChunkRecord)
      → Idle run rows
      → Covered
          (order_rows before
            (select_where (λ (r : ChunkRecord). is_waiting run r && in_table none r) rows))
          rows
  Covered-pending before rows idle =
      let test = λ (r : ChunkRecord). is_waiting run r && in_table none r in
      All-and
        (λ q rests among of. elim (Bool-cases (test q)) [
          | inl is ↦
              rw
                (
                  any_where-order_rows before (is_chunk run q.table_fqn q.chunk_id)
                      (select_where test rows),
                  among of is,
                )
                (ground arith)
          | inr is ↦
              rw (is_done_of_rest q.state (ground (arith, of, rests)) (ground (arith, of, is))) refl
        ])
        rows idle (Among-select_where test rows)

  -- A row that is not the other's is not its chunk either.
  other_chunk :
      (r q : ChunkRecord)
      → of_run run q ≡ true
      → is_chunk run r.table_fqn r.chunk_id q ≡ false
      → is_chunk run q.table_fqn q.chunk_id r ≡ false
  other_chunk r q of other = elim (Bool-cases (is_chunk run q.table_fqn q.chunk_id r)) [
    | inr is_not ↦ is_not
    | inl is ↦
        let (_, e, f) = is_chunk_parts run q.table_fqn q.chunk_id r is in
        let same : is_chunk run r.table_fqn r.chunk_id q ≡ true =
          subst (λ (a : String). is_chunk run a r.chunk_id q ≡ true) (sym e)
            (subst (λ (b : String). is_chunk run q.table_fqn b q ≡ true) (sym f)
              (is_chunk_self q of)) in
        absurd (true≢false (sym same ∙ other))
  ]

  abbrev OtherCovered : ChunkRecord → List ChunkRecord → ChunkRecord → Type 0
  OtherCovered r rest q =
      is_chunk run r.table_fqn r.chunk_id q ≡ false
      → of_run run q ≡ true
      → (is_done q.state || any_where (is_chunk run q.table_fqn q.chunk_id) rest) ≡ true

  -- A chunk that is loaded is done, and the others are as before.
  pub Covered-loaded :
      (r : ChunkRecord) (n : ℕ) (rest rows : List ChunkRecord)
      → Covered (r ∷ rest) rows
      → Covered rest (
          update_where
            (is_chunk run r.table_fqn r.chunk_id)
            (stamp (loaded_mark n))
            (update_where (is_chunk run r.table_fqn r.chunk_id) (stamp in_progress_mark) rows))
  Covered-loaded r n rest rows h =
      let test = is_chunk run r.table_fqn r.chunk_id in
      All-update_where test (stamp (loaded_mark n)) (λ q other is of. refl)
        (λ q other is of. other is of) (update_where test (stamp in_progress_mark) rows)
        (All-update_where {Q = OtherCovered r rest} test (stamp in_progress_mark)
          (λ q covered is other of. absurd (true≢false (sym is ∙ other)))
          (λ q covered is other of.
            let kept : (is_done q.state
                  || (is_chunk run q.table_fqn q.chunk_id r
                      || any_where (is_chunk run q.table_fqn q.chunk_id) rest))
                ≡ true =
              covered of in
            ground (arith, kept, other_chunk r q of is))
          rows h)

  -- Where all rows of the run are done, none waits.
  pub select_where_done :
      (rows : List ChunkRecord)
      → Covered [] rows
      → select_where (λ (r : ChunkRecord). is_waiting run r && in_table none r) rows ≡ []
  select_where_done [] h = refl
  select_where_done (r ∷ rs) h =
      let idle : (is_waiting run r && in_table none r) ≡ false = not_waiting run r h.0 in
      rw (idle, select_where_done rs h.1) refl
