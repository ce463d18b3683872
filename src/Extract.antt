-- ===== src/Extract.antt =====
-- How `run_extract` of cdc/engine.py keeps a trail free of what it holds already: the dedup at the
-- start of a cycle, the guard against another coordinate epoch, and the numbers of snapshot rows.
pub mod Exact
pub mod Resume
use any2helios_db.Prelude.{
  ℕ, suc, ◌+◌, ◌-◌, max, Bool, true, false, not, Option, none, some, List, [], ◌∷◌, ltb, ◌==◌,
  if◌then◌else◌,
}
use any2helios_db.Record.{SourcePos, ChangeRecord, source_pos_key, key_lt}

-- `key is None or key > last_key`
abbrev pub is_new : ℕ × ℕ → Option (ℕ × ℕ) → Bool
is_new last none = true
is_new last (some key) = key_lt last key

-- The loop that fills `kept`.
unfoldable pub keep_new : ℕ × ℕ → List ChangeRecord → List ChangeRecord
unfolding source_pos_key
keep_new last [] = []
keep_new last (r ∷ rs) =
    let kept = keep_new last rs in
    if is_new last (source_pos_key r.source_pos) then r ∷ kept else kept

abbrev pub drop_since : Option (ℕ × ℕ) → Option (ℕ × ℕ) → List ChangeRecord → List ChangeRecord
drop_since none last records = records
drop_since (some since) none records = records
drop_since (some since) (some last) records =
    let kept = keep_new last records in if key_lt last since then records else kept

-- `_drop_already_trailed`; `tail` is `trail.last_source_pos()`.
unfoldable pub drop_already_trailed :
    Option SourcePos → List ChangeRecord → Option (ℕ × ℕ) → List ChangeRecord
unfolding keep_new
drop_already_trailed tail records since = drop_since since (source_pos_key tail) records

-- `_require_same_epoch`: `false` where it raises. Only the bases are compared.
unfoldable pub require_same_epoch : Option SourcePos → Option (ℕ × ℕ) → Bool
unfolding source_pos_key
require_same_epoch tail none = true
require_same_epoch tail (some end) = elim (source_pos_key tail) [
  | none ↦ true
  | some key ↦ not (ltb end.0 key.0)
]

-- `mx + 1` for the `mx` of `_snapshot_start_seq`, which starts at -1, after one key.
abbrev pub above_key : ℕ → Option (ℕ × ℕ) → ℕ → ℕ
above_key base none above = above
above_key base (some key) above = if key.0 == base then max above (suc key.1) else above

unfoldable pub above_records : ℕ → List ChangeRecord → ℕ → ℕ
unfolding source_pos_key
above_records base [] above = above
above_records base (r ∷ rs) above =
    above_records base rs (above_key base (source_pos_key r.source_pos) above)

-- `_snapshot_start_seq`
unfoldable pub snapshot_start_seq : List ChangeRecord → Option ℕ → Option (ℕ × ℕ) → ℕ
unfolding above_records
snapshot_start_seq records none tail_key = 0
snapshot_start_seq records (some base) tail_key =
    above_key base tail_key (above_records base records 0)
