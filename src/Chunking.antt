-- ===== src/Chunking.antt =====
-- chunking/pk_range.py: a table split into key ranges, and the two WHERE clauses of a range.
pub mod Cover
pub mod Replay
use Prim.Native.Nat.{min, max}
use any2helios_db.Prelude.{
  ℕ, zero, suc, ◌+◌, String, ◌<>◌, Bool, Option, none, some, List, [], ◌∷◌, ltb, if◌then◌else◌,
}
use any2helios_db.Prelude.Int.{ℤ, pos, pos_part, ◌+ℤ◌, ◌-ℤ◌, leb_ℤ, min_ℤ, div_ℤ}
use any2helios_db.Prelude.Words.{str_int, int_text}
use any2helios_db.Ident.{quoted, render_ident}
use any2helios_db.Catalog.{Table, single_pk_col}

-- `lo` is inclusive and `hi` exclusive; without `pk_col` the chunk is the whole table.
pub record Chunk : Type 0 where
  pub table : Table
  pub chunk_id : String
  pub pk_col : Option String
  pub lo : Option ℤ
  pub hi : Option ℤ
  pub predicate : Option String

abbrev pub whole_table : Table → String → Chunk
whole_table t id = record {
  table = t;
  chunk_id = id;
  pk_col = none;
  lo = none;
  hi = none;
  predicate = none;
}

abbrev pub key_range : Table → String → String → ℤ → ℤ → Chunk
key_range t id col lo hi = record {
  table = t;
  chunk_id = id;
  pk_col = some col;
  lo = some lo;
  hi = some hi;
  predicate = none;
}

-- How `format` prints a bound.
show_bound : Option ℤ → String
show_bound none = "None"
show_bound (some z) = str_int z

-- `"{c} >= {lo} AND {c} < {hi}".format(...)`
unfoldable pub range_where : String → Option ℤ → Option ℤ → String
unfolding show_bound
range_where c lo hi =
    c <> (" >= " <> (show_bound lo <> (" AND " <> (c <> (" < " <> show_bound hi)))))

-- `Chunk.source_where`
unfoldable pub source_where : Chunk → Option String
unfolding range_where
source_where ch = elim ch.predicate [
  | some p ↦ some p
  | none ↦ elim ch.pk_col [ none ↦ none | some col ↦ some (range_where (quoted col) ch.lo ch.hi) ]
]

-- `Chunk.target_where`
unfoldable pub target_where : Chunk → Bool → Option String
unfolding range_where
target_where ch preserve_case = elim ch.pk_col [
  | none ↦ none
  | some col ↦ some (range_where (render_ident col preserve_case) ch.lo ch.hi)
]

-- `None if b is None else int(b)`. The outer `none` is the `ValueError` of `int`.
unfoldable pub parse_bound : Option String → Option (Option ℤ)
parse_bound none = some none
parse_bound (some b) = elim (int_text b) [ none ↦ none | some z ↦ some (some z) ]

-- `None if ch.lo is None else str(ch.lo)`: how `_plan_fresh` records a bound.
unfoldable pub record_bound : Option ℤ → Option String
record_bound none = none
record_bound (some z) = some (str_int z)

-- `Chunk.from_recorded`
unfoldable pub from_recorded :
    Table → String → Option String → Option String → Option String → Option String → Option Chunk
unfolding parse_bound
from_recorded t id none blo bhi pk_col = some (whole_table t id)
from_recorded t id (some p) blo bhi pk_col = elim (parse_bound blo) [
  | none ↦ none
  | some lo ↦ elim (parse_bound bhi) [
    | none ↦ none
    | some hi ↦
        some (record {
          table = t;
          chunk_id = id;
          pk_col = pk_col;
          lo = lo;
          hi = hi;
          predicate = some p;
        })
  ]
]

-- `"{}:{}".format(table.name, ordinal)`
unfoldable pub chunk_name : Table → ℕ → String
chunk_name t ordinal = t.name <> (":" <> str_int (pos ordinal))

abbrev pub cons_chunk : Chunk → Option (List Chunk) → Option (List Chunk)
cons_chunk c none = none
cons_chunk c (some cs) = some (c ∷ cs)

-- `while start <= hi` of `compute_chunks`. `none`: the fuel ran out.
unfoldable pub chunk_loop : ℕ → Table → String → ℤ → ℤ → ℤ → ℕ → Option (List Chunk)
chunk_loop zero t col step hi start ordinal = none
chunk_loop (suc f) t col step hi start ordinal =
    let end = min_ℤ (start +ℤ step) (hi +ℤ pos 1) in
    let rest = chunk_loop f t col step hi end (suc ordinal) in
    if leb_ℤ start hi
    then cons_chunk (key_range t (chunk_name t ordinal) col start end) rest
    else some []

-- `hi - lo + 1`
abbrev pub span_of : ℤ → ℤ → ℤ
span_of lo hi = hi -ℤ lo +ℤ pos 1

-- `max(1, min(target_chunks, span))`
abbrev pub pieces : ℕ → ℤ → ℕ
pieces target_chunks span = max 1 (min target_chunks (pos_part span))

-- `(span + n - 1) // n`
abbrev pub step_of : ℤ → ℕ → ℤ
step_of span n = div_ℤ (span +ℤ pos n -ℤ pos 1) n

unfoldable pub range_chunks : Table → String → ℕ → ℤ → ℤ → Option (List Chunk)
range_chunks t col target_chunks lo hi =
    let span = span_of lo hi in
    chunk_loop (suc (pos_part span)) t col (step_of span (pieces target_chunks span)) hi lo 0

-- `compute_chunks`. The source adapter's `numeric_pk_bounds` is an argument.
unfoldable pub compute_chunks : (Table → String → Option (ℤ × ℤ)) → Table → ℕ → Option (List Chunk)
unfolding range_chunks chunk_name
compute_chunks numeric_pk_bounds t target_chunks = elim (single_pk_col t) [
  | none ↦ some (whole_table t (chunk_name t 0) ∷ [])
  | some col ↦
      if ltb 1 target_chunks
      then elim (numeric_pk_bounds t col) [
        | none ↦ some (whole_table t (chunk_name t 0) ∷ [])
        | some (lo, hi) ↦ range_chunks t col target_chunks lo hi
      ]
      else some (whole_table t (chunk_name t 0) ∷ [])
]
