-- ===== src/Examples/Chunking.antt =====
-- The theorems on chunks and identifiers at one table.
use any2helios_db.Prelude.{◌≤◌, ◌≡◌, refl, String, Option, none, some, List, arith, length}
use any2helios_db.Prelude.Int.{ℤ, pos, negsuc}
use any2helios_db.Catalog.{Table, single_pk_col}
use any2helios_db.Ident.{quote_ident, is_member, lower}
use any2helios_db.Ident.Token.{ident_name}
use any2helios_db.Chunking.{Chunk, key_range, whole_table, compute_chunks}
use any2helios_db.Chunking.Cover.{holders, within, compute_chunks_partition}
use any2helios_db.Chunking.Replay.{SameRange, replayed, from_recorded-planned}
use any2helios_db.Examples.Sample.{users}

abbrev bounds : Table → String → Option (ℤ × ℤ)
bounds t col = some (negsuc 1, pos 7)

compute_chunks_partition_example :
    (cs : List Chunk) × (compute_chunks bounds users 4 ≡ some cs)
    × ((z : ℤ) → holders z cs ≡ within (negsuc 1) (pos 7) z)
    × (length cs ≤ 4)
unfolding single_pk_col
compute_chunks_partition_example = compute_chunks_partition bounds users 4 refl (omega arith) refl

from_recorded-planned_example :
    ((c : Chunk) × (replayed (key_range users "users:0" "id" (negsuc 1) (pos 3)) (some "id")
        ≡ some c)
      × SameRange c (key_range users "users:0" "id" (negsuc 1) (pos 3)))
    × ((c : Chunk) × (replayed (whole_table users "users:0") none ≡ some c)
        × SameRange c (whole_table users "users:0"))
from_recorded-planned_example = from_recorded-planned users "users:0" "id" (negsuc 1) (pos 3) none

-- A bare word that may name a function only, and a name that ends in a newline.
quote_ident_left : ident_name (quote_ident "left") ≡ none
unfolding quote_ident is_member ident_name lower
quote_ident_left = refl

quote_ident_newline : ident_name (quote_ident "a\n") ≡ none
unfolding quote_ident is_member ident_name lower
quote_ident_newline = refl
