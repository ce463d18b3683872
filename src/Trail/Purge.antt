-- ===== src/Trail/Purge.antt =====
-- `purge_applied` and its recovery in cdc/trail.py. The effects of a purge are a list of steps, so
-- that a crash is a run of the first few of them.
pub mod Leftovers
pub mod Crash
use any2helios_db.Prelude.{
  ℕ, zero, suc, ◌+◌, Bool, true, false, not, ◌&&◌, Option, none, some, List, [], ◌∷◌, ltb, leb,
  ◌==◌, if◌then◌else◌, length, take,
}
use any2helios_db.Trail.{Segment, Trail, active_index, count_lines}

abbrev pub count_all : List Segment → ℕ
count_all [] = 0
count_all (s ∷ rest) = count_lines s + count_all rest

-- `line_count`
unfoldable pub line_count : Trail → ℕ
line_count t = t.purged_lines + count_all t.segments

-- The test of `_reconcile_purged_segments`.
abbrev pub is_leftover : ℕ → ℕ → Segment → Bool
is_leftover last active s = leb s.index last && not (s.index == active)

unfoldable pub without_leftovers : ℕ → ℕ → List Segment → List Segment
without_leftovers last active [] = []
without_leftovers last active (s ∷ rest) =
    let kept = without_leftovers last active rest in
    if is_leftover last active s then kept else s ∷ kept

-- `reconcile_purged`: the removed paths, which it also returns, are those of the missing segments.
unfoldable pub reconcile_purged : Trail → Trail
unfolding without_leftovers
reconcile_purged t = elim t.last_purged [
  | none ↦ t
  | some last ↦ record t { segments = without_leftovers last (active_index t.segments) t.segments }
]

-- `_write_purged_meta(end, idx)` and `os.remove` of a segment.
pub data Step : Type 0 where
  write_meta : ℕ → ℕ → Step
  remove : ℕ → Step

unfoldable pub remove_at : ℕ → List Segment → List Segment
remove_at i [] = []
remove_at i (s ∷ rest) = let more = remove_at i rest in if s.index == i then rest else s ∷ more

unfoldable pub perform : Step → Trail → Trail
unfolding remove_at
perform (write_meta end i) t = record t { purged_lines = end; last_purged = some i }
perform (remove i) t = record t { segments = remove_at i t.segments }

unfoldable pub perform_all : List Step → Trail → Trail
perform_all [] t = t
perform_all (s ∷ rest) t = perform_all rest (perform s t)

-- The loop of `purge_applied`: the meta is written before the file goes.
unfoldable pub purge_steps : ℕ → ℕ → ℕ → List Segment → List Step
purge_steps cursor active gidx [] = []
purge_steps cursor active gidx (s ∷ rest) =
    let end = gidx + count_lines s in
    let more = purge_steps cursor active end rest in
    if s.index == active
    then []
    else if ltb cursor end
    then []
    else write_meta end s.index ∷ remove s.index ∷ more

-- The steps that `purge_applied` takes after it has reconciled.
unfoldable pub plan_purge : Trail → ℕ → List Step
unfolding purge_steps
plan_purge t cursor =
    if leb (length t.segments) 1
    then []
    else purge_steps cursor (active_index t.segments) t.purged_lines t.segments

-- `purge_applied`
unfoldable pub purge_applied : Trail → ℕ → Trail
unfolding reconcile_purged perform_all plan_purge perform
purge_applied t cursor = let t' = reconcile_purged t in perform_all (plan_purge t' cursor) t'

-- `purge_applied` cut short by a crash after `k` of its steps.
unfoldable pub crashed_purge : Trail → ℕ → ℕ → Trail
crashed_purge t cursor k =
    let t' = reconcile_purged t in perform_all (take k (plan_purge t' cursor)) t'
