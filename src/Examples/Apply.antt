-- ===== src/Examples/Apply.antt =====
-- The theorems on the chunks at a trail whose last transaction has not ended.
use any2helios_db.Prelude.{
  ◌+◌, ◌-◌, ◌≡◌, Bool, none, some, List, [], ◌∷◌, ◌++◌, map, arith, length, drop, true, false,
}
use any2helios_db.Record.{ChangeRecord}
use any2helios_db.Trail.Layout.{Layout, records_of, trail_of}
use any2helios_db.Apply.{read_txn_aligned, segment_for_apply, yield_barrier}
use any2helios_db.Apply.Hold.{closes, IsOpen}
use any2helios_db.Apply.Runs.{txn_runs, join_runs, AreTxnRuns}
use any2helios_db.Apply.Segments.{segments_of, segment_for_apply-runs}
use any2helios_db.Apply.Whole.{read_txn_aligned-whole}
use any2helios_db.Examples.Sample.{tagged, plain, move, unary_codec}

abbrev two_txns : Layout
two_txns = (0, plain 1 ∷ plain 2 ∷ []) ∷ (1, plain 3 ∷ []) ∷ []

abbrev left_over : List ChangeRecord
left_over = map unary_codec.canon (drop (1 - 0) (records_of two_txns))

read_txn_aligned-whole_example :
    (ys : List ChangeRecord) × (zs : List ChangeRecord) × (ys ++ zs ≡ left_over)
    × (read_txn_aligned unary_codec 9 (trail_of unary_codec 0 none 0 two_txns []) 1 (some 1) true
        ≡ some (ys, 1 + length ys))
    × (closes ys zs ≡ true)
    × (ys ≡ [] → IsOpen zs)
read_txn_aligned-whole_example =
    read_txn_aligned-whole unary_codec 0 none 0 two_txns [] 1 (some 1) 9 tt (omega arith)
      (omega arith) (omega arith)

abbrev moves : ChangeRecord → Bool
moves r = elim r.before_key [ [] ↦ false | ◌∷◌ b bs ↦ true ]

abbrev chunk : List ChangeRecord
chunk = plain 1 ∷ tagged (some 7) false 2 ∷ tagged (some 7) true 3 ∷ move ∷ []

segment_for_apply-runs_example :
    (join_runs (txn_runs chunk) ≡ chunk)
    × AreTxnRuns (txn_runs chunk)
    × (segment_for_apply chunk moves true ≡ segments_of moves (txn_runs chunk))
    × (segment_for_apply chunk moves false ≡ yield_barrier chunk [])
segment_for_apply-runs_example = segment_for_apply-runs chunk moves
