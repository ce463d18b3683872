-- ===== src/Apply/Segments.antt =====
-- What the segments of a chunk are.
use any2helios_db.Prelude.{
  ℕ, zero, suc, ◌<◌, ◌≡◌, refl, sym, ap, subst, ◌∙◌, Bool, true, false, Option, List, [], ◌∷◌, ◌++◌,
  append-nil, append_assoc, arith, length, length-drop, take, drop, Bool-cases, Option-cases, inl,
  inr, not, ◌&&◌, if◌then◌else◌,
}
use any2helios_db.Record.{ChangeRecord}
use any2helios_db.Apply.{
  is_none, same_txn, same_prefix, ApplySegment, atomic, barrier, yield_barrier, any_keymove,
  segment_loop, segment_for_apply,
}
use any2helios_db.Apply.Runs.{
  same_txn_refl, txn_runs, join_runs, AreTxnRuns, join_runs-txn_runs, AreTxnRuns-txn_runs,
  push-untagged, txn_runs-same_prefix,
}

-- Records for the barrier join those of a barrier behind them.
abbrev pub join_barrier : List ChangeRecord → List ApplySegment → List ApplySegment
join_barrier [] segs = segs
join_barrier (r ∷ rs) [] = barrier (r ∷ rs) ∷ []
join_barrier (r ∷ rs) (atomic g ∷ segs) = barrier (r ∷ rs) ∷ atomic g ∷ segs
join_barrier (r ∷ rs) (barrier g ∷ segs) = barrier ((r ∷ rs) ++ g) ∷ segs

-- A run of a transaction in which no key moves.
abbrev pub is_atomic : (ChangeRecord → Bool) → List ChangeRecord → Bool
is_atomic is_keymove [] = false
is_atomic is_keymove (r ∷ rs) = not (is_none r.txn_id) && not (any_keymove is_keymove (r ∷ rs))

-- Every run is one segment where it can be atomic; what stands between goes to the barrier.
abbrev pub segments_of : (ChangeRecord → Bool) → List (List ChangeRecord) → List ApplySegment
segments_of is_keymove [] = []
segments_of is_keymove (g ∷ runs) =
    let later = segments_of is_keymove runs in
    if is_atomic is_keymove g then atomic g ∷ later else join_barrier g later

join_barrier-append :
    (a b : List ChangeRecord) (segs : List ApplySegment)
    → join_barrier (a ++ b) segs ≡ join_barrier a (join_barrier b segs)
join_barrier-append [] b segs = refl
join_barrier-append (r ∷ rs) [] segs =
    ap (λ (t : List ChangeRecord). join_barrier t segs) (append-nil (r ∷ rs))
join_barrier-append (r ∷ rs) (q ∷ qs) [] = refl
join_barrier-append (r ∷ rs) (q ∷ qs) (atomic g ∷ segs) = refl
join_barrier-append (r ∷ rs) (q ∷ qs) (barrier g ∷ segs) =
    ap (λ (t : List ChangeRecord). barrier (r ∷ t) ∷ segs) (append_assoc rs (q ∷ qs) g)

yield_barrier-atomic :
    (run g : List ChangeRecord) (segs : List ApplySegment)
    → yield_barrier run (atomic g ∷ segs) ≡ join_barrier run (atomic g ∷ segs)
yield_barrier-atomic [] g segs = refl
yield_barrier-atomic (r ∷ rs) g segs = refl

yield_barrier-end : (run : List ChangeRecord) → yield_barrier run [] ≡ join_barrier run []
yield_barrier-end [] = refl
yield_barrier-end (r ∷ rs) = refl

module _ (is_keymove : ChangeRecord → Bool) where
  abbrev expected : List ChangeRecord → List ApplySegment
  expected records = segments_of is_keymove (txn_runs records)

  segment_loop-expected :
      (fuel : ℕ) (records run : List ChangeRecord)
      → length records < fuel
      → segment_loop fuel is_keymove records run ≡ join_barrier run (expected records)
  unfolding segment_loop same_prefix
  segment_loop-expected zero records run h = absurd (omega arith)
  segment_loop-expected (suc fuel) [] run h = yield_barrier-end run
  segment_loop-expected (suc fuel) (r ∷ rs) run h = elim (Option-cases r.txn_id) [
    | inl untagged ↦
        let bare : is_none r.txn_id ≡ true = rw untagged refl in
        rw
          (
            bare,
            segment_loop-expected fuel rs (run ++ r ∷ []) (omega arith),
            join_barrier-append run (r ∷ []) (expected rs),
            push-untagged r (txn_runs rs) bare,
          )
          (rw bare refl)
    | inr (t, is) ↦
        let n : ℕ = same_prefix r.txn_id rs in
        let later : List ChangeRecord = drop n rs in
        let shorter : length later < fuel = omega (arith, length-drop n rs) in
        let group : List ChangeRecord = r ∷ take n rs in
        let tagged : is_none r.txn_id ≡ false = rw is refl in
        let self : same_txn r.txn_id r.txn_id ≡ true = same_txn_refl r.txn_id in
        let first : txn_runs (r ∷ rs) ≡ group ∷ txn_runs later =
          subst
            (λ (o : Option ℕ).
              txn_runs (r ∷ rs)
              ≡ (r ∷ take (same_prefix o rs) rs) ∷ txn_runs (drop (same_prefix o rs) rs))
            (sym is) (txn_runs-same_prefix t r rs is) in
        elim (Bool-cases (any_keymove is_keymove group)) [
          | inl moves ↦
              rw
                (
                  first,
                  tagged,
                  self,
                  moves,
                  segment_loop-expected fuel later (run ++ group) shorter,
                )
                (join_barrier-append run group (expected later))
          | inr still ↦
              rw (first, tagged, self, still, segment_loop-expected fuel later [] shorter)
                (yield_barrier-atomic run group (expected later))
        ]
  ]

-- With atomic apply on, the segments of a chunk are what this description says: the chunk is cut
-- into the runs of its transactions, each as long as it can be, an untagged record alone; a run of a
-- transaction in which no key moves is an atomic segment, whole; the records between two atomic
-- segments, before the first and behind the last are one barrier segment, if there are any. With
-- atomic apply off, a chunk that is not empty is one barrier segment.
pub segment_for_apply-runs :
    (records : List ChangeRecord) (is_keymove : ChangeRecord → Bool)
    → let runs = txn_runs records in
      (join_runs runs ≡ records)
      × AreTxnRuns runs
      × (segment_for_apply records is_keymove true ≡ segments_of is_keymove runs)
      × (segment_for_apply records is_keymove false ≡ yield_barrier records [])
unfolding segment_for_apply
segment_for_apply-runs records is_keymove = (
  join_runs-txn_runs records,
  AreTxnRuns-txn_runs records,
  segment_loop-expected is_keymove (suc (length records)) records [] (omega arith),
  refl,
)

abbrev pub flatten : List ApplySegment → List ChangeRecord
flatten [] = []
flatten (atomic g ∷ segs) = g ++ flatten segs
flatten (barrier g ∷ segs) = g ++ flatten segs

flatten-join_barrier :
    (run : List ChangeRecord) (segs : List ApplySegment)
    → flatten (join_barrier run segs) ≡ run ++ flatten segs
flatten-join_barrier [] segs = refl
flatten-join_barrier (r ∷ rs) [] = refl
flatten-join_barrier (r ∷ rs) (atomic g ∷ segs) = refl
flatten-join_barrier (r ∷ rs) (barrier g ∷ segs) = append_assoc (r ∷ rs) g (flatten segs)

flatten-segments_of :
    (is_keymove : ChangeRecord → Bool) (runs : List (List ChangeRecord))
    → flatten (segments_of is_keymove runs) ≡ join_runs runs
flatten-segments_of is_keymove [] = refl
flatten-segments_of is_keymove (g ∷ runs) = elim (Bool-cases (is_atomic is_keymove g)) [
  | inl whole ↦ rw (whole, flatten-segments_of is_keymove runs) refl
  | inr other ↦
      rw
        (
          other,
          flatten-join_barrier g (segments_of is_keymove runs),
          flatten-segments_of is_keymove runs,
        )
        refl
]

pub flatten-segment_for_apply :
    (records : List ChangeRecord) (is_keymove : ChangeRecord → Bool) (enabled : Bool)
    → flatten (segment_for_apply records is_keymove enabled) ≡ records
flatten-segment_for_apply records is_keymove true =
    let (joined, runs, same, off) = segment_for_apply-runs records is_keymove in
    rw same (flatten-segments_of is_keymove (txn_runs records) ∙ joined)
flatten-segment_for_apply [] is_keymove false =
    let (joined, runs, same, off) = segment_for_apply-runs [] is_keymove in rw off refl
flatten-segment_for_apply (r ∷ rs) is_keymove false =
    let (joined, runs, same, off) = segment_for_apply-runs (r ∷ rs) is_keymove in
    rw off (append-nil (r ∷ rs))
