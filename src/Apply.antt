-- ===== src/Apply.antt =====
-- The chunks that `run_replicat` of cdc/engine.py applies: `_read_txn_aligned` reads one without
-- splitting a source transaction, `_segment_for_apply` splits it into transactions and runs.
pub mod Aligned
pub mod Hold
pub mod Runs
pub mod Segments
pub mod Whole
use any2helios_db.Prelude.{
  ℕ, zero, suc, ◌+◌, ◌-◌, Bool, true, false, not, ◌&&◌, ◌||◌, Option, none, some, List, [], ◌∷◌,
  ◌++◌, ltb, ◌==◌, if◌then◌else◌, length, take, drop,
}
use any2helios_db.Record.{ChangeRecord}
use any2helios_db.Record.Codec.{Codec}
use any2helios_db.Trail.{Trail, Read, read}

-- `Trail.read` on a trail that nobody writes to meanwhile.
abbrev pub Reader : Type 0
Reader = ℕ → Option ℕ → Read

abbrev pub is_none {ℓ} : {A : Type ℓ} → Option A → Bool
is_none none = true
is_none (some a) = false

abbrev pub same_txn : Option ℕ → Option ℕ → Bool
same_txn none none = true
same_txn (some a) (some b) = a == b
same_txn none (some b) = false
same_txn (some a) none = false

-- `records[-1]`
abbrev pub last_record : ChangeRecord → List ChangeRecord → ChangeRecord
last_record r [] = r
last_record r (q ∷ rs) = last_record q rs

-- The loop that finds `cut`: where the transaction changes, or the end.
unfoldable pub same_prefix : Option ℕ → List ChangeRecord → ℕ
same_prefix tid [] = 0
same_prefix tid (r ∷ rs) = let n = same_prefix tid rs in if same_txn r.txn_id tid then suc n else 0

-- The loop that walks `k` down over the records of the last transaction, as a pass from the left:
-- `r` goes if everything behind it goes and it is of that transaction too.
unfoldable pub keep_length : Option ℕ → List ChangeRecord → ℕ
keep_length tid [] = 0
keep_length tid (r ∷ rs) =
    let n = keep_length tid rs in if n == 0 && same_txn r.txn_id tid then 0 else suc n

-- `nxt and nxt[0].txn_id != last.txn_id`
unfoldable pub starts_other : Option ℕ → List ChangeRecord → Bool
starts_other tid [] = false
starts_other tid (r ∷ rs) = not (same_txn r.txn_id tid)

-- The end of `_hold_incomplete_txn_tail`, once it has read the next record.
unfoldable pub hold_or_pass : Option ℕ → List ChangeRecord → ℕ → Read → Read
unfolding keep_length starts_other
hold_or_pass tid records next none = none
hold_or_pass tid records next (some (nxt, cursor)) =
    let k = keep_length tid records in
    if starts_other tid nxt
    then some (records, next)
    else some (take k records, next - (length records - k))

-- `_hold_incomplete_txn_tail`
unfoldable pub hold_incomplete_txn_tail : Reader → List ChangeRecord → ℕ → Read
unfolding hold_or_pass
hold_incomplete_txn_tail rd [] next = some ([], next)
hold_incomplete_txn_tail rd (r ∷ rs) next =
    let last = last_record r rs in
    if is_none last.txn_id || last.txn_end
    then some (r ∷ rs, next)
    else hold_or_pass last.txn_id (r ∷ rs) next (rd next (some 1))

-- The `while True` of `_read_txn_aligned`. Each round but the last reads a record more, so one more
-- round than there are records is enough.
unfoldable pub overshoot : ℕ → Reader → Option ℕ → Option ℕ → List ChangeRecord → ℕ → Read
unfolding same_prefix
overshoot zero rd limit tid records next = none
overshoot (suc fuel) rd limit tid records next = elim (rd next limit) [
  | none ↦ none
  | some found ↦
      let more = found.0 in
      let cut = same_prefix tid more in
      let again = overshoot fuel rd limit tid (records ++ more) found.1 in
      if length more == 0
      then some (records, next)
      else if ltb cut (length more)
      then some (records ++ take cut more, next + cut)
      else again
]

-- `Option` chained, for a reader that may raise.
abbrev pub and_then : Read → (List ChangeRecord → ℕ → Read) → Read
and_then none k = none
and_then (some found) k = k found.0 found.1

-- The part of `_read_txn_aligned` that extends a bounded read.
unfoldable pub extend : ℕ → Reader → Option ℕ → List ChangeRecord → ℕ → Read
unfolding overshoot
extend fuel rd limit [] next = some ([], next)
extend fuel rd none (r ∷ rs) next = some (r ∷ rs, next)
extend fuel rd (some n) (r ∷ rs) next =
    let tid = (last_record r rs).txn_id in
    let further = overshoot fuel rd (some n) tid (r ∷ rs) next in
    if is_none tid then some (r ∷ rs, next) else further

unfoldable pub align : ℕ → Reader → ℕ → Option ℕ → Bool → Read
unfolding extend hold_incomplete_txn_tail
align fuel rd start limit enabled = and_then (rd start limit) (λ records next.
    if enabled
    then and_then (extend fuel rd limit records next) (hold_incomplete_txn_tail rd)
    else some (records, next))

-- `_read_txn_aligned`
unfoldable pub read_txn_aligned : (C : Codec) → ℕ → Trail → ℕ → Option ℕ → Bool → Read
unfolding align
read_txn_aligned C fuel t start limit enabled = align fuel (read C t) start limit enabled

-- A part of a chunk: `("atomic", group)` or `("barrier", run)`.
pub data ApplySegment : Type 0 where
  atomic : List ChangeRecord → ApplySegment
  barrier : List ChangeRecord → ApplySegment

abbrev pub yield_barrier : List ChangeRecord → List ApplySegment → List ApplySegment
yield_barrier [] rest = rest
yield_barrier (r ∷ rs) rest = barrier (r ∷ rs) ∷ rest

abbrev pub any_keymove : (ChangeRecord → Bool) → List ChangeRecord → Bool
any_keymove is_keymove [] = false
any_keymove is_keymove (r ∷ rs) = is_keymove r || any_keymove is_keymove rs

-- The loop of `_segment_for_apply` over the records from `i` on. Every round takes a record or more,
-- so one more round than there are records is enough.
unfoldable pub segment_loop :
    ℕ → (ChangeRecord → Bool) → List ChangeRecord → List ChangeRecord → List ApplySegment
unfolding same_prefix
segment_loop zero is_keymove records run = []
segment_loop (suc fuel) is_keymove [] run = yield_barrier run []
segment_loop (suc fuel) is_keymove (r ∷ rs) run =
    let k = same_prefix r.txn_id (r ∷ rs) in
    let group = take k (r ∷ rs) in
    let later = drop k (r ∷ rs) in
    let as_atomic = yield_barrier run (atomic group ∷ segment_loop fuel is_keymove later []) in
    let as_run = segment_loop fuel is_keymove later (run ++ group) in
    let single = segment_loop fuel is_keymove rs (run ++ r ∷ []) in
    if is_none r.txn_id then single else if any_keymove is_keymove group then as_run else as_atomic

-- `_segment_for_apply`; `is_keymove` is `rep._is_keymove`.
unfoldable pub segment_for_apply :
    List ChangeRecord → (ChangeRecord → Bool) → Bool → List ApplySegment
unfolding segment_loop
segment_for_apply records is_keymove enabled =
    if enabled
    then segment_loop (suc (length records)) is_keymove records []
    else yield_barrier records []
