-- ===== src/Ledger.antt =====
-- core/manifest.py: the ledger of a resumable load, as the rows of its four tables. A statement that
-- the source sends to SQLite is an update, a selection or an insertion on those rows.
pub mod Chunks
pub mod Progress
pub mod Written
use any2helios_db.Prelude.{
  ℕ, zero, suc, ◌+◌, String, Bool, true, false, not, ◌&&◌, ◌||◌, Option, none, some, List, [], ◌∷◌,
  ◌++◌, ◌==◌, if◌then◌else◌, str_eq,
}

pub data State : Type 0 where
  pending in_progress loaded verified failed : State

abbrev pub state_code : State → ℕ
state_code pending = 0
state_code in_progress = 1
state_code loaded = 2
state_code verified = 3
state_code failed = 4

abbrev pub same_state : State → State → Bool
same_state a b = state_code a == state_code b

-- The tables of `_SCHEMA`.
pub record RunRecord : Type 0 where
  pub run_id : String
  pub config_hash : String
  pub source_fingerprint : String
  pub started_at : String
  pub status : String

pub record TableRecord : Type 0 where
  pub run_id : String
  pub table_fqn : String
  pub target_table : String
  pub total_chunks : ℕ
  pub total_rows_est : ℕ
  pub status : State

pub record ChunkRecord : Type 0 where
  pub run_id : String
  pub table_fqn : String
  pub chunk_id : String
  pub predicate : Option String
  pub bounds_lo : Option String
  pub bounds_hi : Option String
  pub state : State
  pub attempts : ℕ
  pub rows_loaded : ℕ
  pub checksum : Option String
  pub error : Option String

pub record Watermark : Type 0 where
  pub run_id : String
  pub table_fqn : String
  pub kind : String
  pub value : String
  pub captured_at : String

pub record Manifest : Type 0 where
  pub runs : List RunRecord
  pub tables : List TableRecord
  pub chunks : List ChunkRecord
  pub watermarks : List Watermark

module _ {ℓ} {A : Type ℓ} where
  -- `UPDATE ... SET change WHERE test`
  abbrev pub update_where : (A → Bool) → (A → A) → List A → List A
  update_where test change [] = []
  update_where test change (r ∷ rs) = (if test r then change r else r) ∷ update_where test change rs

  -- `SELECT ... WHERE test`
  abbrev pub select_where : (A → Bool) → List A → List A
  select_where test [] = []
  select_where test (r ∷ rs) = let rest = select_where test rs in if test r then r ∷ rest else rest

  -- `SELECT count(*) ... WHERE test`
  abbrev pub count_where : (A → Bool) → List A → ℕ
  count_where test [] = 0
  count_where test (r ∷ rs) = (if test r then 1 else 0) + count_where test rs

  -- `SELECT 1 ... WHERE test LIMIT 1`
  abbrev pub any_where : (A → Bool) → List A → Bool
  any_where test [] = false
  any_where test (r ∷ rs) = test r || any_where test rs

  -- `fetchone`
  abbrev pub first_where : (A → Bool) → List A → Option A
  first_where test [] = none
  first_where test (r ∷ rs) = let rest = first_where test rs in if test r then some r else rest

  -- `INSERT ... ON CONFLICT DO UPDATE SET change`
  abbrev pub upsert_row : (A → Bool) → A → (A → A) → List A → List A
  upsert_row test new change rows =
      if any_where test rows then update_where test change rows else rows ++ new ∷ []

-- `start_run`
unfoldable pub start_run : String → String → String → String → Manifest → Manifest
start_run run hash fingerprint started m =
    let new : RunRecord = record {
      run_id = run;
      config_hash = hash;
      source_fingerprint = fingerprint;
      started_at = started;
      status = "running";
    } in
    record m { runs = upsert_row (λ (r : RunRecord). str_eq r.run_id run) new (λ _. new) m.runs }

-- `get_run`
unfoldable pub get_run : String → Manifest → Option (String × String)
get_run run m = elim (first_where (λ (r : RunRecord). str_eq r.run_id run) m.runs) [
  | none ↦ none
  | some r ↦ some (r.config_hash, r.source_fingerprint)
]

-- The primary key of `watermarks`.
abbrev pub is_watermark : String → String → Watermark → Bool
is_watermark run fqn w = str_eq w.run_id run && str_eq w.table_fqn fqn

-- `set_watermark`
unfoldable pub set_watermark : String → String → String → String → String → Manifest → Manifest
set_watermark run fqn kind value captured m =
    let new : Watermark = record {
      run_id = run;
      table_fqn = fqn;
      kind = kind;
      value = value;
      captured_at = captured;
    } in
    record m { watermarks = upsert_row (is_watermark run fqn) new (λ _. new) m.watermarks }

-- `get_watermark`
unfoldable pub get_watermark : String → String → Manifest → Option (String × String)
get_watermark run fqn m = elim (first_where (is_watermark run fqn) m.watermarks) [
  | none ↦ none
  | some w ↦ some (w.kind, w.value)
]

-- The value of a row that is asked for by its kind too.
abbrev pub watermark_value : String → String → String → Manifest → Option String
watermark_value run fqn kind m =
    elim (first_where (λ (w : Watermark). is_watermark run fqn w && str_eq w.kind kind)
      m.watermarks) [ none ↦ none | some w ↦ some w.value ]

-- `token or ""`
abbrev pub or_empty : Option String → String
or_empty none = ""
or_empty (some token) = token

-- `set_snapshot`
unfoldable pub set_snapshot : String → Option String → Manifest → Manifest
unfolding set_watermark
set_snapshot run token = set_watermark run "__run__" "snapshot" (or_empty token) ""

-- `get_snapshot`
unfoldable pub get_snapshot : String → Manifest → Option String
get_snapshot run m = elim (watermark_value run "__run__" "snapshot" m) [
  | none ↦ none
  | some value ↦ if str_eq value "" then none else some value
]

-- `snapshot_decided`
unfoldable pub snapshot_decided : String → Manifest → Bool
snapshot_decided run m = elim (watermark_value run "__run__" "snapshot" m) [
  | none ↦ false
  | some value ↦ true
]

-- `mark_plan_complete`
unfoldable pub mark_plan_complete : String → Bool → Manifest → Manifest
unfolding set_watermark
mark_plan_complete run complete =
    set_watermark run "__plan__" "plan_complete" (if complete then "1" else "") ""

-- `plan_complete`
unfoldable pub plan_complete : String → Manifest → Bool
plan_complete run m = elim (watermark_value run "__plan__" "plan_complete" m) [
  | none ↦ false
  | some value ↦ str_eq value "1"
]
