-- ===== src/Loader/Plan/Coherent.antt =====
-- No chunk of a plan reads one range and deletes another.
use mathlib.Core.Bool.{true≢false}
use any2helios_db.Prelude.{
  ◌≢◌, ℕ, zero, suc, String, ◌≡◌, refl, sym, ap, ◌∙◌, subst, Bool, true, false, Option, none, some,
  List, [], ◌∷◌, ◌⊎◌, inl, inr, arith, str_eq, eq_iff, Bool-cases, Option-cases, ltb,
}
use any2helios_db.Prelude.Int.{ℤ, pos, ◌+ℤ◌, min_ℤ, leb_ℤ}
use any2helios_db.Prelude.Words.{int_text}
use any2helios_db.Ident.{quoted, render_ident}
use any2helios_db.Catalog.{Table, single_pk_col}
use any2helios_db.Chunking.{
  Chunk, key_range, whole_table, range_where, source_where, target_where, from_recorded,
  parse_bound, record_bound, compute_chunks, chunk_loop, range_chunks, cons_chunk, chunk_name,
}
use any2helios_db.Ledger.{ChunkRecord}
use any2helios_db.Ledger.Chunks.Rows.{All}
use any2helios_db.Loader.Plan.{
  PlanError, bad_bound, key_changed, key_gone, put_chunk, or_nil, guard_chunk, key_missing,
  replay_row,
}

-- The chunk is the whole table in the source and in the target, or one range of one column in both.
abbrev pub Coherent : Chunk → Type 0
Coherent ch =
    ((source_where ch ≡ none) × ((preserve_case : Bool) → target_where ch preserve_case ≡ none))
    ⊎ ((col : String) × (lo : ℤ) × (hi : ℤ) × (source_where ch
          ≡ some (range_where (quoted col) (some lo) (some hi)))
        × ((preserve_case : Bool)
            → target_where ch preserve_case
              ≡ some (range_where (render_ident col preserve_case) (some lo) (some hi))))

-- A row with a predicate has both bounds.
abbrev pub HasBounds : Option String → Option String → Option String → Type 0
HasBounds none lo hi = Unit
HasBounds (some p) (some lo) (some hi) = Unit
HasBounds (some p) _ _ = ⊥

abbrev pub Bounded : ChunkRecord → Type 0
Bounded rc = HasBounds rc.predicate rc.bounds_lo rc.bounds_hi

-- What a planned chunk is, before it is recorded.
abbrev pub Fresh : Chunk → Type 0
Fresh ch = Coherent ch × HasBounds (source_where ch) (record_bound ch.lo) (record_bound ch.hi)

Fresh-whole_table : (t : Table) (id : String) → Fresh (whole_table t id)
unfolding source_where target_where
Fresh-whole_table t id = (inl (refl, λ preserve_case. refl), tt)

Fresh-key_range : (t : Table) (id col : String) (lo hi : ℤ) → Fresh (key_range t id col lo hi)
unfolding source_where target_where record_bound
Fresh-key_range t id col lo hi = (inr (col, lo, hi, refl, λ preserve_case. refl), tt)

AllFresh-cons_chunk :
    (ch : Chunk) (o : Option (List Chunk))
    → Fresh ch
    → All Fresh (or_nil o)
    → All Fresh (or_nil (cons_chunk ch o))
AllFresh-cons_chunk ch none h hs = tt
AllFresh-cons_chunk ch (some cs) h hs = (h, hs)

AllFresh-chunk_loop :
    (fuel : ℕ) (t : Table) (col : String) (step hi start : ℤ) (ordinal : ℕ)
    → All Fresh (or_nil (chunk_loop fuel t col step hi start ordinal))
unfolding chunk_loop
AllFresh-chunk_loop zero t col step hi start ordinal = tt
AllFresh-chunk_loop (suc f) t col step hi start ordinal =
    let end = min_ℤ (start +ℤ step) (hi +ℤ pos 1) in
    elim (Bool-cases (leb_ℤ start hi)) [
      | inl is ↦ rw is (
          AllFresh-cons_chunk (key_range t (chunk_name t ordinal) col start end)
            (chunk_loop f t col step hi end (suc ordinal))
            (Fresh-key_range t (chunk_name t ordinal) col start end)
            (AllFresh-chunk_loop f t col step hi end (suc ordinal)))
      | inr is ↦ rw is tt
    ]

AllFresh-range_chunks :
    (t : Table) (col : String) (n : ℕ) (lo hi : ℤ) → All Fresh (or_nil (range_chunks t col n lo hi))
unfolding range_chunks
AllFresh-range_chunks t col n lo hi = AllFresh-chunk_loop _ t col _ hi lo 0

pub AllFresh-compute_chunks :
    (bounds : Table → String → Option (ℤ × ℤ)) (t : Table) (n : ℕ)
    → All Fresh (or_nil (compute_chunks bounds t n))
unfolding compute_chunks
AllFresh-compute_chunks bounds t n =
    let whole = whole_table t (chunk_name t 0) in
    let one : All Fresh (whole ∷ []) = (Fresh-whole_table t (chunk_name t 0), tt) in
    let by =
      λ (cs : Option (List Chunk)) (e : compute_chunks bounds t n ≡ cs) (h : All Fresh (or_nil cs)).
        subst (λ (o : Option (List Chunk)). All Fresh (or_nil o)) (sym e) h in
    elim (Option-cases (single_pk_col t)) [
      | inl e ↦ by (some (whole ∷ [])) (rw (e, compute_chunks) refl) one
      | inr (col, e) ↦ elim (Bool-cases (ltb 1 n)) [
        | inr is ↦ by (some (whole ∷ [])) (rw (e, is, compute_chunks) refl) one
        | inl is ↦ elim (Option-cases (bounds t col)) [
          | inl f ↦ by (some (whole ∷ [])) (rw (e, is, f, compute_chunks) refl) one
          | inr ((lo, hi), f) ↦
              by (range_chunks t col n lo hi) (rw (e, is, f, compute_chunks) refl)
                (AllFresh-range_chunks t col n lo hi)
        ]
      ]
    ]

module _ (P : Chunk → Type 0) where
  pub All-put_chunk : (ch : Chunk) (cs : List Chunk) → P ch → All P cs → All P (put_chunk ch cs)
  All-put_chunk ch [] h hs = (h, tt)
  All-put_chunk ch (c ∷ cs) h hs = elim (Bool-cases (str_eq c.chunk_id ch.chunk_id)) [
    | inl is ↦ rw is (h, hs.1)
    | inr is ↦ rw is (hs.0, All-put_chunk ch cs h hs.1)
  ]

abbrev or_chunk : Chunk → PlanError ⊎ Chunk → Chunk
or_chunk d (inl e) = d
or_chunk d (inr ch) = ch

inr-inj : (a b : Chunk) → ◌≡◌ {A = PlanError ⊎ Chunk} (inr a) (inr b) → a ≡ b
inr-inj a b e = ap (or_chunk a) e

abbrev is_error : PlanError ⊎ Chunk → Bool
is_error (inl e) = true
is_error (inr ch) = false

refused : (e : PlanError) (ch : Chunk) → ◌≢◌ {A = PlanError ⊎ Chunk} (inl e) (inr ch)
refused e ch h = true≢false (ap is_error h)

-- A row with the bounds written out.
abbrev with_bounds : ChunkRecord → Option String → Option String → Option String → ChunkRecord
with_bounds rc p lo hi = record rc { predicate = p; bounds_lo = lo; bounds_hi = hi }

abbrev recorded_range : Table → String → String → String → ℤ → ℤ → Chunk
recorded_range t id p col lo hi = record {
  table = t;
  chunk_id = id;
  pk_col = some col;
  lo = some lo;
  hi = some hi;
  predicate = some p;
}

recorded_range-Coherent :
    (t : Table) (id p col : String) (lo hi : ℤ)
    → str_eq (range_where (quoted col) (some lo) (some hi)) p ≡ true
    → Coherent (recorded_range t id p col lo hi)
unfolding source_where target_where
recorded_range-Coherent t id p col lo hi e = inr (
  col,
  lo,
  hi,
  ap some (sym ((eq_iff (range_where (quoted col) (some lo) (some hi)) p).0 e)),
  λ preserve_case. refl,
)

-- The text of a chunk that the guard lets through is the one of its bounds.
guard_chunk-Coherent :
    (t : Table) (rc : ChunkRecord) (p lo hi : Option String)
    → HasBounds p lo hi
    → (pk_col : Option String) → key_missing p pk_col ≡ false
    → (ch : Chunk)
    → guard_chunk t (with_bounds rc p lo hi) pk_col (from_recorded t rc.chunk_id p lo hi pk_col)
      ≡ inr ch
    → Coherent ch
unfolding from_recorded parse_bound source_where
guard_chunk-Coherent t rc none lo hi h pk_col k ch e =
    subst Coherent (inr-inj (whole_table t rc.chunk_id) ch e) (Fresh-whole_table t rc.chunk_id).0
guard_chunk-Coherent t rc (some p) none hi h pk_col k ch e = absurd h
guard_chunk-Coherent t rc (some p) (some a) none h pk_col k ch e = absurd h
guard_chunk-Coherent t rc (some p) (some a) (some b) h none k ch e = ground (arith, k)
guard_chunk-Coherent t rc (some p) (some a) (some b) h (some col) k ch e =
    elim (Option-cases (int_text a)) [
      | inl f ↦
          let made : guard_chunk t (with_bounds rc (some p) (some a) (some b)) (some col)
                (from_recorded t rc.chunk_id (some p) (some a) (some b) (some col))
              ≡ inl (bad_bound rc.table_fqn rc.chunk_id) =
            rw (f, guard_chunk, from_recorded, parse_bound) refl in
          absurd (refused (bad_bound rc.table_fqn rc.chunk_id) ch (sym made ∙ e))
      | inr (lo, f) ↦ elim (Option-cases (int_text b)) [
        | inl g ↦
            let made : guard_chunk t (with_bounds rc (some p) (some a) (some b)) (some col)
                  (from_recorded t rc.chunk_id (some p) (some a) (some b) (some col))
                ≡ inl (bad_bound rc.table_fqn rc.chunk_id) =
              rw (f, g, guard_chunk, from_recorded, parse_bound) refl in
            absurd (refused (bad_bound rc.table_fqn rc.chunk_id) ch (sym made ∙ e))
        | inr (hi, g) ↦
            elim (Bool-cases (str_eq (range_where (quoted col) (some lo) (some hi)) p)) [
              | inl is ↦
                  let made : guard_chunk t (with_bounds rc (some p) (some a) (some b)) (some col)
                        (from_recorded t rc.chunk_id (some p) (some a) (some b) (some col))
                      ≡ inr (recorded_range t rc.chunk_id p col lo hi) =
                    rw (f, g, is, guard_chunk, from_recorded, parse_bound) refl in
                  subst Coherent
                    (inr-inj (recorded_range t rc.chunk_id p col lo hi) ch (sym made ∙ e))
                    (recorded_range-Coherent t rc.chunk_id p col lo hi is)
              | inr is ↦
                  let made : guard_chunk t (with_bounds rc (some p) (some a) (some b)) (some col)
                        (from_recorded t rc.chunk_id (some p) (some a) (some b) (some col))
                      ≡ inl (key_changed rc.table_fqn rc.chunk_id) =
                    rw (f, g, is, guard_chunk, from_recorded, parse_bound) refl in
                  absurd (refused (key_changed rc.table_fqn rc.chunk_id) ch (sym made ∙ e))
            ]
      ]
    ]

pub replay_row-Coherent :
    (t : Table) (rc : ChunkRecord)
    → Bounded rc
    → (ch : Chunk) → ◌≡◌ {A = PlanError ⊎ Chunk} (replay_row t rc) (inr ch)
    → Coherent ch
unfolding replay_row
replay_row-Coherent t rc h ch e = elim (Bool-cases (key_missing rc.predicate (single_pk_col t))) [
  | inl is ↦
      let made : replay_row t rc ≡ inl (key_gone rc.table_fqn rc.chunk_id) = rw is refl in
      absurd (refused (key_gone rc.table_fqn rc.chunk_id) ch (sym made ∙ e))
  | inr is ↦
      let made : replay_row t rc
          ≡ guard_chunk t rc (single_pk_col t) (
              from_recorded t rc.chunk_id rc.predicate rc.bounds_lo rc.bounds_hi
                (single_pk_col t)) =
        rw is refl in
      guard_chunk-Coherent t rc rc.predicate rc.bounds_lo rc.bounds_hi h (single_pk_col t) is ch
        (sym made ∙ e)
]
