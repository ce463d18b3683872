-- ===== src/Replicat/Kinds.antt =====
-- The runs that `_runs_by_kind` cuts a table's records into.
use any2helios_db.Prelude.{
  String, ◌≡◌, refl, ap, ◌∙◌, true, false, List, [], ◌∷◌, ◌++◌, append_assoc, if◌then◌else◌, arith,
  Bool-cases, inl, inr,
}
use any2helios_db.Record.{ChangeRecord}
use any2helios_db.Replicat.{Config, Kind, same_kind, classify, runs_loop, runs_by_kind}

abbrev pub Runs : Type 0
Runs = List (Kind × List ChangeRecord)

abbrev pub runs_records : Runs → List ChangeRecord
runs_records [] = []
runs_records ((kind, run) ∷ runs) = run ++ runs_records runs

same_kind→eq : (k l : Kind) → same_kind k l ≡ true → k ≡ l
same_kind→eq k l h = ground arith

module _ (cfg : Config) (pk cols : List String) where
  abbrev pub AllOfKind : Kind → List ChangeRecord → Type 0
  AllOfKind kind [] = Unit
  AllOfKind kind (r ∷ rs) = (classify cfg r pk cols ≡ kind) × AllOfKind kind rs

  abbrev pub StartsOther : Kind → Runs → Type 0
  StartsOther kind [] = Unit
  StartsOther kind ((kind', run) ∷ runs) = same_kind kind' kind ≡ false

  -- Each run is of one kind, none is empty, and two in a row are of different kinds.
  abbrev pub AreRuns : Runs → Type 0
  AreRuns [] = Unit
  AreRuns ((kind, []) ∷ runs) = ⊥
  AreRuns ((kind, r ∷ run) ∷ runs) = AllOfKind kind (r ∷ run) × StartsOther kind runs × AreRuns runs

  AllOfKind-append :
      (kind : Kind) (run : List ChangeRecord) (r : ChangeRecord)
      → AllOfKind kind run
      → classify cfg r pk cols ≡ kind
      → AllOfKind kind (run ++ r ∷ [])
  AllOfKind-append kind [] r h e = (e, tt)
  AllOfKind-append kind (q ∷ run) r h e = (h.0, AllOfKind-append kind run r h.1 e)

  -- What the loop makes of the rest, once its run has begun: a run of the current kind and more.
  abbrev Continues : Kind → ChangeRecord → List ChangeRecord → List ChangeRecord → Runs → Type 0
  Continues kind q run rs runs =
      (run' : List ChangeRecord) × (more : Runs) × (runs ≡ (kind, q ∷ run') ∷ more)
      × (runs_records runs ≡ (q ∷ run) ++ rs)
      × AreRuns runs

  -- One round, with the kind of the next record.
  runs_loop-round :
      (r : ChangeRecord) (rs : List ChangeRecord) (kind : Kind) (q : ChangeRecord)
      (run : List ChangeRecord)
      → runs_loop cfg pk cols (r ∷ rs) kind (q ∷ run) ≡ (
          if same_kind (classify cfg r pk cols) kind
          then runs_loop cfg pk cols rs (classify cfg r pk cols) ((q ∷ run) ++ r ∷ [])
          else (kind, q ∷ run) ∷ runs_loop cfg pk cols rs (classify cfg r pk cols) (r ∷ []))
  unfolding runs_loop
  runs_loop-round r rs kind q run = refl

  continue_run :
      (kind kind' : Kind) (q r : ChangeRecord) (run rs : List ChangeRecord)
      → same_kind kind' kind ≡ true
      → Continues kind q (run ++ r ∷ []) rs (runs_loop cfg pk cols rs kind ((q ∷ run) ++ r ∷ []))
      → Continues kind q run (r ∷ rs) (runs_loop cfg pk cols rs kind' ((q ∷ run) ++ r ∷ []))
  continue_run kind kind' q r run rs same (run', more, shape, records, ok) =
      rw (same_kind→eq kind' kind same)
        (run', more, shape, records ∙ append_assoc (q ∷ run) (r ∷ []) rs, ok)

  runs_loop-Continues :
      (rs : List ChangeRecord) (kind : Kind) (q : ChangeRecord) (run : List ChangeRecord)
      → AllOfKind kind (q ∷ run)
      → Continues kind q run rs (runs_loop cfg pk cols rs kind (q ∷ run))
  runs_loop-Continues [] kind q run h = unfold runs_loop in (run, [], refl, refl, (h, tt, tt))
  runs_loop-Continues (r ∷ rs) kind q run h =
      elim (Bool-cases (same_kind (classify cfg r pk cols) kind)) [
        | inl same ↦
            let same_eq = same_kind→eq (classify cfg r pk cols) kind same in
            rw (runs_loop-round r rs kind q run, same)
              (continue_run kind (classify cfg r pk cols) q r run rs same (
                runs_loop-Continues rs kind q (run ++ r ∷ [])
                  (AllOfKind-append kind (q ∷ run) r h same_eq)))
        | inr other ↦
            let (run', more, shape, records, ok) =
              runs_loop-Continues rs (classify cfg r pk cols) r [] (refl, tt) in
            rw (runs_loop-round r rs kind q run, other)
              (
                run,
                runs_loop cfg pk cols rs (classify cfg r pk cols) (r ∷ []),
                refl,
                ap (λ (t : List ChangeRecord). (q ∷ run) ++ t) records,
                (h, (rw shape other), ok),
              )
      ]

  runs_by_kind-AreRuns :
      (recs : List ChangeRecord)
      → (runs_records (runs_by_kind cfg recs pk cols) ≡ recs)
        × AreRuns (runs_by_kind cfg recs pk cols)
  unfolding runs_by_kind
  runs_by_kind-AreRuns [] = unfold runs_loop in (refl, tt)
  runs_by_kind-AreRuns (r ∷ rs) =
      let (run', more, shape, records, ok) =
        runs_loop-Continues rs (classify cfg r pk cols) r [] (refl, tt) in
      (records, ok)

-- The runs of a table's records are its records in their order; every record of a run is of the
-- run's kind, no run is empty, and two runs side by side are of different kinds, so the runs are as
-- long as they can be.
pub runs_by_kind-partition :
    (cfg : Config) (recs : List ChangeRecord) (pk cols : List String)
    → (runs_records (runs_by_kind cfg recs pk cols) ≡ recs)
      × AreRuns cfg pk cols (runs_by_kind cfg recs pk cols)
runs_by_kind-partition cfg recs pk cols = runs_by_kind-AreRuns cfg pk cols recs
