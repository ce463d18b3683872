-- ===== src/Examples/Replicating.antt =====
-- The theorems on a run of the replicat, at a trail, a target that counts rows and one that rejects.
use any2helios_db.Prelude.{
  ℕ, ◌≤◌, ◌≡◌, refl, ap, String, true, false, Option, none, some, List, [], ◌∷◌, ◌++◌, ◌==◌,
  if◌then◌else◌, length, arith, ◌⊎◌,
}
use mathlib.Core.Option
use any2helios_db.Prelude.Int.{pos}
use any2helios_db.Record.{SourcePos}
use any2helios_db.Record.Codec.{Text, NoNewline}
use any2helios_db.DeadLetter.{Entry, Journal, pos_key, count, append_letter, seen_source_positions}
use any2helios_db.Apply.{read_txn_aligned, segment_for_apply}
use any2helios_db.Replicat.Apply.{apply}
use any2helios_db.Replicat.Barrier.{apply_barriered}
use any2helios_db.Trail.Purge.{reconcile_purged}
use any2helios_db.DeadLetter.File.{letters_text, keys_of_letters}
use any2helios_db.DeadLetter.Once.{AreDistinct}
use any2helios_db.Registry.{Row, Registry, ExtractInfo, registered, get, register}
use any2helios_db.CopyCodec.{split_fields}
use any2helios_db.Registry.Stored.{refuses, registered_info, Stores, get-register}
use any2helios_db.Trail.{read, encode_records, strip_left, is_space}
use any2helios_db.Trail.Layout.{Layout, trail_of}
use any2helios_db.Replicat.{Driver}
use any2helios_db.Replicating.{
  World, Options, Capabilities, Edition, run_chunks, run_replicat, poison_cb, refuses_edition,
  Summary,
}
use any2helios_db.Replicating.Once.{ParksOnce, run_replicat-parks_once}
use any2helios_db.Replicating.Reads.{left_from}
use any2helios_db.Replicating.Pieces.{AppliesPieces, run_chunks-AppliesPieces}
use any2helios_db.Replicating.Cursor.{HasSettled, run_chunks-HasSettled}
use any2helios_db.Examples.Sample.{
  plain, tagged, unary_codec, config, Db, idle, counter, strokes, count_strokes, no_newline, counts,
}

abbrev seq_of : SourcePos → ℕ
seq_of (SourcePos.single n) = n
seq_of (SourcePos.compound base seq) = seq
seq_of SourcePos.malformed = 0

-- An entry holds its position in strokes.
abbrev dump_entry : Option SourcePos → Text
dump_entry none = b'{' ∷ b'}' ∷ []
dump_entry (some p) = b'{' ∷ b'p' ∷ (strokes (seq_of p) ++ b'}' ∷ [])

abbrev find_pos : Text → Option (Option Text)
find_pos (c ∷ d ∷ s) = if d == b'p' then some (some (strokes (count_strokes s))) else some none
find_pos _ = none

entry_NoNewline : (o : Option SourcePos) → NoNewline (dump_entry o)
entry_NoNewline none = (refl, (refl, tt))
entry_NoNewline (some p) = (refl, (refl, no_newline (seq_of p)))

entry_framed : (o : Option SourcePos) → (mid : Text) × (dump_entry o ≡ b'{' ∷ (mid ++ b'}' ∷ []))
entry_framed none = ([], refl)
entry_framed (some p) = (b'p' ∷ strokes (seq_of p), refl)

entry_found :
    (o : Option SourcePos) → find_pos (dump_entry o) ≡ some (Option.map (λ p. strokes (seq_of p)) o)
entry_found none = refl
entry_found (some p) = ap (λ (n : ℕ). some (some (strokes n))) (counts (seq_of p))

abbrev journal : Journal
journal = record {
  dumps = λ e. dump_entry e.letter.source_pos;
  dump_pos = λ p. strokes (seq_of p);
  loads_pos = find_pos;
  one_line = λ e. entry_NoNewline e.letter.source_pos;
  framed = λ e. entry_framed e.letter.source_pos;
  finds = λ e. entry_found e.letter.source_pos;
}

-- A target that takes no row.
abbrev rejecting : Driver Db
rejecting = record counter {
  upsert = λ t ks cs rows s. (s, none);
  delete_keys = λ t ks rows s. (s, none);
  update_columns = λ t ks cs rows s. (s, none);
}

abbrev cdc_row : ℕ → Row
cdc_row cursor = record {
  name = "cdc";
  schema = "app";
  tables_csv = b'u' ∷ [];
  watermark = pos 0;
  apply_cursor = cursor;
  state = registered;
}

abbrev three : Layout
three = (0, plain 1 ∷ tagged (some 7) false 2 ∷ tagged (some 7) true 3 ∷ []) ∷ []

abbrev options : Options
options = record { apply_batch = 2; poison_retries = 1; max_poison = 5; txn_enabled = true }

abbrev folded : String → String
folded name = name

abbrev known : Entry
known = record { letter = plain 1; cursor = 1 }

known-AreDistinct : AreDistinct (keys_of_letters journal (known ∷ []))
unfolding pos_key
known-AreDistinct = (refl, tt)

abbrev start_world : World Db
start_world = record {
  target = idle 0;
  letters = letters_text journal (known ∷ []);
  dead_seen = [];
  poisoned = 0;
  registry = cdc_row 0 ∷ [];
}

abbrev full_edition : Capabilities
full_edition = record { edition = Edition.full; version = none }

abbrev old_nano : Capabilities
old_nano = record { edition = Edition.nano; version = some (3, 58, 4) }

-- The edition before the first one that applies keyed upserts is refused.
refuses_old_nano : refuses_edition old_nano ≡ true
unfolding refuses_edition
refuses_old_nano = refl

abbrev fields : World Db × Option (Option Summary) → Option (ℕ × ℕ × ℕ × ℕ × ℕ)
fields (w, some (some s)) =
    some (s.applied, s.cursor, s.read_total, s.dead_lettered, s.dead_letter_total)
fields (w, _) = none

run_replicat-parks_once_example : ParksOnce journal options (known ∷ []) (
    run_replicat journal rejecting config folded options "cdc" unary_codec none 5 full_edition
      (trail_of unary_codec 0 none 64 three [])
      start_world)
run_replicat-parks_once_example =
    run_replicat-parks_once journal rejecting config folded options "cdc" unary_codec none
      (known ∷ []) 5 full_edition (trail_of unary_codec 0 none 64 three []) start_world
      known-AreDistinct refl (omega arith)

run_chunks-AppliesPieces_example :
    AppliesPieces journal counter config folded options "cdc" unary_codec 0 none 64 three [] tt 5 5
      0
run_chunks-AppliesPieces_example =
    run_chunks-AppliesPieces journal counter config folded options "cdc" unary_codec 0 none 64 three
      [] tt 5 5 0 (omega arith) (omega arith) (omega arith)

abbrev cdc_info : ExtractInfo
cdc_info = record {
  name = "cdc";
  schema = "app";
  tables = (b'u' ∷ []) ∷ [];
  watermark = pos 0;
  apply_cursor = 1;
  state = registered;
}

cdc_there : get "cdc" (cdc_row 1 ∷ []) ≡ some cdc_info
unfolding get split_fields
cdc_there = refl

run_chunks-HasSettled_example :
    (n : ℕ) × (n ≤ length (left_from unary_codec 0 none 64 three [] tt 1))
    × HasSettled journal counter config folded options "cdc" 1 0 n (
        run_chunks journal counter config folded options "cdc" unary_codec 5
          (trail_of unary_codec 0 none 64 three [])
          1
          0
          (0, [])
          5
          (record start_world { registry = cdc_row 1 ∷ [] }))
run_chunks-HasSettled_example =
    run_chunks-HasSettled journal counter config folded options "cdc" unary_codec 0 none 64 three []
      tt 5 5 1 0 (0, []) (record start_world { registry = cdc_row 1 ∷ [] }) (omega arith)
      (omega arith) (omega arith) (cdc_info, cdc_there, refl)

abbrev rows : Registry
rows = cdc_row 4 ∷ []

abbrev hr_tables : List Text
hr_tables = (b'a' ∷ []) ∷ (b'b' ∷ []) ∷ []

get-register_example :
    ((refuses (get "cdc" rows) hr_tables true ≡ true)
      × (register "cdc" "hr" hr_tables true rows ≡ none))
    ⊎ Stores "cdc" "other" rows
        (some (registered_info (get "cdc" rows) "cdc" "hr" hr_tables true))
        (register "cdc" "hr" hr_tables true rows)
get-register_example = get-register "cdc" "hr" hr_tables true "other" rows refl

-- Of the three records the first was parked by an earlier run; the others are parked now.
rejected_once :
    fields (
      run_replicat journal rejecting config folded options "cdc" unary_codec none 5 full_edition
        (trail_of unary_codec 0 none 64 three [])
        start_world)
    ≡ some (0, 3, 3, 2, 3)
unfolding run_replicat get read_txn_aligned read reconcile_purged encode_records segment_for_apply
    apply_barriered apply poison_cb pos_key seen_source_positions letters_text count append_letter
rejected_once = refl

-- A crash left a fragment of an entry; the next entry is glued to it, and its position is not seen.
append_letter-torn :
    seen_source_positions journal (append_letter journal (plain 4) 4 (b'{' ∷ [])) ≡ []
unfolding seen_source_positions append_letter strip_left is_space
append_letter-torn = refl
