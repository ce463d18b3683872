-- ===== src/Chunking/Replay.antt =====
-- A chunk that is rebuilt from what the ledger recorded is the chunk that was planned.
use any2helios_db.Prelude.{String, ◌≡◌, refl, Bool, Option, none, some, arith}
use any2helios_db.Prelude.Int.{ℤ}
use any2helios_db.Prelude.Words.{int_text-str_int}
use any2helios_db.Catalog.{Table}
use any2helios_db.Chunking.{
  Chunk, whole_table, key_range, source_where, target_where, record_bound, parse_bound,
  from_recorded,
}

-- The same rows are read and the same rows are deleted.
pub record SameRange (c d : Chunk) : Type 0 where
  pub source : source_where c ≡ source_where d
  pub target : (preserve_case : Bool) → target_where c preserve_case ≡ target_where d preserve_case
  pub lo : c.lo ≡ d.lo
  pub hi : c.hi ≡ d.hi
  pub chunk_id : c.chunk_id ≡ d.chunk_id

abbrev pub replayed : Chunk → Option String → Option Chunk
replayed c pk_col =
    from_recorded c.table c.chunk_id (source_where c) (record_bound c.lo) (record_bound c.hi) pk_col

parse_bound-record_bound : (b : Option ℤ) → parse_bound (record_bound b) ≡ some b
unfolding parse_bound record_bound
parse_bound-record_bound none = refl
parse_bound-record_bound (some z) = ground (arith, int_text-str_int z)

-- The two shapes of a planned chunk, a key range and a whole table, come back from the ledger's
-- texts with the same bounds, the same read and the same delete.
pub from_recorded-planned :
    (t : Table) (id col : String) (lo hi : ℤ) (pk : Option String)
    → ((c : Chunk) × (replayed (key_range t id col lo hi) (some col) ≡ some c)
        × SameRange c (key_range t id col lo hi))
      × ((c : Chunk) × (replayed (whole_table t id) pk ≡ some c) × SameRange c (whole_table t id))
unfolding from_recorded source_where target_where
from_recorded-planned t id col lo hi pk = (
  (
    record (key_range t id col lo hi) { predicate = source_where (key_range t id col lo hi) },
    ground (arith, parse_bound-record_bound (some lo), parse_bound-record_bound (some hi)),
    record { source = refl; target = λ preserve_case. refl; lo = refl; hi = refl; chunk_id = refl },
  ),
  (
    whole_table t id,
    refl,
    record { source = refl; target = λ preserve_case. refl; lo = refl; hi = refl; chunk_id = refl },
  ),
)
