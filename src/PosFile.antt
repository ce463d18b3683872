-- ===== src/PosFile.antt =====
-- cdc/posfile.py: the file that holds the position of a capture. A digit is one of ASCII. A file is
-- what was written to it and whether that is on the disk; the name of the position file stands in the
-- directory in memory and in the directory on the disk, which only agree after an `fsync` of it.
pub mod Crash
pub mod Epoch
use any2helios_db.Prelude.{
  ℕ, ◌+◌, Bool, true, false, not, ◌&&◌, ◌||◌, Option, none, some, List, [], ◌∷◌, ltb, leb, ◌==◌,
  if◌then◌else◌, take,
}
use any2helios_db.Record.Codec.{Text}
use any2helios_db.Trail.{strip, is_empty}

abbrev cons_first : ℕ → Option (Text × Text) → Option (Text × Text)
cons_first c none = none
cons_first c (some (a, b)) = some (c ∷ a, b)

abbrev or_split : Option (Text × Text) → Option (Text × Text) → Option (Text × Text)
or_split none other = other
or_split (some p) other = some p

-- `s.partition(sep)`, where the separator is there.
unfoldable pub partition : ℕ → Text → Option (Text × Text)
partition sep [] = none
partition sep (c ∷ s) =
    let rest = partition sep s in if c == sep then some ([], s) else cons_first c rest

-- `s.rpartition(sep)`, where the separator is there.
unfoldable pub rpartition : ℕ → Text → Option (Text × Text)
rpartition sep [] = none
rpartition sep (c ∷ s) =
    or_split (cons_first c (rpartition sep s)) (if c == sep then some ([], s) else none)

abbrev is_digit : ℕ → Bool
is_digit c = leb b'0' c && leb c b'9'

abbrev all_digits : Text → Bool
all_digits [] = true
all_digits (c ∷ s) = is_digit c && all_digits s

-- `s.isdigit()`
abbrev pub are_digits : Text → Bool
are_digits s = not (is_empty s) && all_digits s

abbrev is_hex_digit : ℕ → Bool
is_hex_digit c = is_digit c || (leb b'a' c && leb c b'f') || (leb b'A' c && leb c b'F')

-- Digits with single underscores between them; the flag says that a digit must come.
unfoldable pub hex_digits : Bool → Text → Bool
hex_digits must [] = not must
hex_digits must (c ∷ s) =
    let more = hex_digits false s in
    let digit_next = hex_digits true s in
    if is_hex_digit c then more else if must then false else if c == b'_' then digit_next else false

abbrev skip_underscore : Text → Text
skip_underscore [] = []
skip_underscore (c ∷ s) = if c == b'_' then s else c ∷ s

abbrev is_unsigned_hex : Text → Bool
is_unsigned_hex [] = false
is_unsigned_hex (c ∷ []) = is_hex_digit c
is_unsigned_hex (c ∷ x ∷ s) =
    if (c == b'0') && ((x == b'x') || (x == b'X'))
    then hex_digits true (skip_underscore s)
    else hex_digits true (c ∷ x ∷ s)

abbrev skip_sign : Text → Text
skip_sign [] = []
skip_sign (c ∷ s) = if (c == b'+') || (c == b'-') then s else c ∷ s

-- `int(s, 16)` does not raise.
unfoldable pub is_hex : Text → Bool
unfolding hex_digits strip
is_hex s = is_unsigned_hex (skip_sign (strip s))

abbrev is_coordinate : Option (Text × Text) → Bool
is_coordinate none = false
is_coordinate (some (file, pos)) = not (is_empty file) && are_digits pos

abbrev is_lsn : Option (Text × Text) → Bool
is_lsn none = false
is_lsn (some (hi, lo)) = not (is_empty hi) && not (is_empty lo) && is_hex hi && is_hex lo

-- `_looks_like_pos`
unfoldable pub looks_like_pos : Text → Bool
unfolding partition rpartition is_hex
looks_like_pos s = if is_coordinate (rpartition b':' s) then true else is_lsn (partition b'/' s)

-- `read_pos` of the content of the file, if there is one: no cursor, a cursor, or (`none`) an error.
unfoldable pub read_pos : Option Text → Option (Option Text)
unfolding strip looks_like_pos
read_pos none = some none
read_pos (some raw) =
    let s = strip raw in
    if is_empty s then none else if looks_like_pos s then some (some s) else none

pub record File : Type 0 where
  pub content : Text
  pub is_synced : Bool

-- What the path names, what it names on the disk, and the temporary file.
pub record Disk : Type 0 where
  pub entry : Option File
  pub saved : Option File
  pub temp : Option File

pub data Effect : Type 0 where
  create : Effect
  write : Text → Effect
  sync : Effect
  replace : Effect
  sync_dir : Effect
  unlink : Effect

abbrev synced : Option File → Option File
synced none = none
synced (some f) = some (record f { is_synced = true })

unfoldable pub perform : Effect → Disk → Disk
perform create d = record d { temp = some (record { content = []; is_synced = false }) }
perform (write data') d = record d { temp = some (record { content = data'; is_synced = false }) }
perform sync d = record d { temp = synced d.temp }
perform replace d = record d { entry = d.temp; temp = none }
perform sync_dir d = record d { saved = d.entry }
perform unlink d = record d { temp = none }

unfoldable pub perform_all : List Effect → Disk → Disk
unfolding perform
perform_all [] d = d
perform_all (e ∷ es) d = perform_all es (perform e d)

-- Which calls fail; a write that fails has written a part.
pub record Faults : Type 0 where
  pub no_temp : Bool
  pub part : Option Text
  pub no_sync : Bool
  pub no_replace : Bool
  pub no_unlink : Bool
  pub no_sync_dir : Bool

-- `os.unlink(tmp)` and `raise`
abbrev pub clean_up : Faults → List Effect × Bool
clean_up F = ((if F.no_unlink then [] else unlink ∷ []), false)

abbrev pub after : Effect → List Effect × Bool → List Effect × Bool
after e (es, is_done) = (e ∷ es, is_done)

abbrev pub replace_path : Faults → List Effect × Bool
replace_path F =
    if F.no_replace
    then clean_up F
    else after replace ((if F.no_sync_dir then [] else sync_dir ∷ []), true)

abbrev pub write_temp : Faults → Text → Option Text → List Effect × Bool
write_temp F data' (some part) = after (write part) (clean_up F)
write_temp F data' none =
    after (write data') (if F.no_sync then clean_up F else after sync (replace_path F))

-- The effects of `write_pos_atomic`, and whether it returns.
unfoldable pub write_effects : Faults → Text → List Effect × Bool
write_effects F data' = if F.no_temp then ([], false) else after create (write_temp F data' F.part)

-- `write_pos_atomic`
unfoldable pub write_pos_atomic : Faults → Text → Disk → Disk × Bool
unfolding write_effects perform_all
write_pos_atomic F data' d =
    let (es, is_done) = write_effects F data' in (perform_all es d, is_done)

-- What a name finds after a crash: a file that was not synced holds anything.
abbrev pub left : (Text → Text) → Option File → Option Text
left torn none = none
left torn (some f) = some (if f.is_synced then f.content else torn f.content)

-- The content of the path when the machine stops after `k` of the effects; `keeps` is whether the
-- directory was written without an `fsync`.
unfoldable pub crashed_write : Faults → Text → Disk → ℕ → Bool → (Text → Text) → Option Text
unfolding write_effects perform_all
crashed_write F data' d k keeps torn =
    let (es, is_done) = write_effects F data' in
    let d' = perform_all (take k es) d in left torn (if keeps then d'.entry else d'.saved)
