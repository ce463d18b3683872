-- ===== src/Trail.antt =====
-- cdc/trail.py: the durable append-only trail, cut into segments. A directory is its segments in
-- the order of their numbers, those that the class lists, and the fields of `trail.meta`. A file is its text; the line count of
-- a closed segment, which the class caches, is counted anew.
pub mod Appending
pub mod Heal
pub mod Layout
pub mod Lines
pub mod Purge
pub mod Reading
pub mod Walk
use mathlib.Core.List.{reverse}
use any2helios_db.Prelude.{
  ℕ, zero, suc, ◌+◌, ◌-◌, ◌*◌, max, min, Bool, true, false, not, ◌&&◌, ◌||◌, Option, none, some,
  List, [], ◌∷◌, ◌++◌, ltb, leb, ◌==◌, if◌then◌else◌, length, take, drop,
}
use any2helios_db.Record.{ChangeRecord, SourcePos}
use any2helios_db.Record.Codec.{Text, Codec}

-- `trail.jsonl` is number 0, `trail.NNNNN.jsonl` number NNNNN.
pub record Segment : Type 0 where
  pub index : ℕ
  pub content : Text

-- `last_purged` is `none` for the -1 of a trail that was never purged.
pub record Trail : Type 0 where
  pub segments : List Segment
  pub purged_lines : ℕ
  pub last_purged : Option ℕ
  pub rotate_bytes : ℕ

-- `Trail.__init__` on a new directory; `mb` is `rotate_mb`.
unfoldable pub empty_trail : ℕ → Trail
empty_trail mb = record {
  segments = [];
  purged_lines = 0;
  last_purged = none;
  rotate_bytes = mb * 1024 * 1024;
}

-- `_active_index`
unfoldable pub active_index : List Segment → ℕ
active_index [] = 0
active_index (s ∷ []) = s.index
active_index (s ∷ r ∷ rest) = active_index (r ∷ rest)

-- Appends a character to the first line.
abbrev pub push_char : ℕ → List Text → List Text
push_char c [] = (c ∷ []) ∷ []
push_char c (l ∷ ls) = (c ∷ l) ∷ ls

-- `for raw in f`: the lines of a file, each with the newline that ends it.
unfoldable pub split_lines : Text → List Text
split_lines [] = []
split_lines (c ∷ s) =
    let rest = split_lines s in if c == 10 then (c ∷ []) ∷ rest else push_char c rest

-- `raw.endswith("\n")`
unfoldable pub ends_line : Text → Bool
ends_line [] = false
ends_line (c ∷ []) = c == 10
ends_line (c ∷ d ∷ s) = ends_line (d ∷ s)

-- `str.isspace` of one character
unfoldable pub is_space : ℕ → Bool
is_space c =
    (leb 9 c && leb c 13)
    || (leb 28 c && leb c 32)
    || c == 133
    || c == 160
    || c == 5760
    || (leb 8192 c && leb c 8202)
    || c == 8232
    || c == 8233
    || c == 8239
    || c == 8287
    || c == 12288

unfoldable pub strip_left : Text → Text
strip_left [] = []
strip_left (c ∷ s) = let rest = strip_left s in if is_space c then rest else c ∷ s

-- `raw.strip()`
unfoldable pub strip : Text → Text
strip s = reverse (strip_left (reverse (strip_left s)))

abbrev pub is_empty {ℓ} : {A : Type ℓ} → List A → Bool
is_empty [] = true
is_empty (x ∷ xs) = false

-- How the scan of a segment leaves off: it goes on with the next, it returns, or it raises.
pub data Scan : Type 0 where
  next : List ChangeRecord → ℕ → Scan
  done : List ChangeRecord → ℕ → Scan
  corrupt : Scan

-- `none` is the `Any2HeliosError` of a corrupt line.
abbrev pub Read : Type 0
Read = Option (List ChangeRecord × ℕ)

-- Where a scan returns or raises, so does `read`; else it goes on.
abbrev pub then_read : Scan → (List ChangeRecord → ℕ → Read) → Read
then_read (next out gidx) k = k out gidx
then_read (done out gidx) k = some (out, gidx)
then_read corrupt k = none

-- `limit is not None and len(out) >= limit`
abbrev pub is_full : Option ℕ → List ChangeRecord → Bool
is_full none out = false
is_full (some n) out = leb n (length out)

abbrev pub count_lines : Segment → ℕ
count_lines s = length (split_lines s.content)

module _ (C : Codec) where
  open C use {to_json, from_json}

  -- `encode_records`, and what `append` writes.
  unfoldable pub encode_records : List ChangeRecord → Text
  encode_records [] = []
  encode_records (r ∷ rs) = to_json r ++ 10 ∷ encode_records rs

  -- The loop over the lines of one segment. `gidx` counts the lines before, purged ones too.
  unfoldable pub scan : Bool → ℕ → Option ℕ → List Text → ℕ → List ChangeRecord → Scan
  scan is_last cursor limit [] gidx out = next out gidx
  scan is_last cursor limit (raw ∷ raws) gidx out =
      let skip = scan is_last cursor limit raws (suc gidx) out in
      if leb (suc gidx) cursor
      then skip
      else if not (ends_line raw)
      then (if is_last then done out (max cursor gidx) else corrupt)
      else if is_empty (strip raw)
      then skip
      else elim (from_json (strip raw)) [
        | none ↦ corrupt
        | some r ↦
            let grown = out ++ r ∷ [] in
            let more = scan is_last cursor limit raws (suc gidx) grown in
            if is_full limit grown then done grown (suc gidx) else more
      ]

  -- The loop over the segments. A closed segment that ends at or below the cursor is not opened.
  unfoldable pub read_segments : ℕ → Option ℕ → List Segment → ℕ → List ChangeRecord → Read
  unfolding scan
  read_segments cursor limit [] gidx out = some (out, max cursor gidx)
  read_segments cursor limit (s ∷ []) gidx out =
      then_read (scan true cursor limit (split_lines s.content) gidx out)
        (λ out' gidx'. some (out', max cursor gidx'))
  read_segments cursor limit (s ∷ t ∷ rest) gidx out =
      let n = count_lines s in
      let skipped = read_segments cursor limit (t ∷ rest) (gidx + n) out in
      let opened =
        then_read (scan false cursor limit (split_lines s.content) gidx out)
          (λ out' gidx'. read_segments cursor limit (t ∷ rest) gidx' out') in
      if leb (gidx + n) cursor then skipped else opened

  -- `Trail.read`
  unfoldable pub read : Trail → ℕ → Option ℕ → Read
  unfolding read_segments split_lines ends_line strip strip_left is_space
  read t cursor limit = read_segments cursor limit t.segments t.purged_lines []

  -- `open(path, "a")` on the segment of that number, which is made if it is not there.
  unfoldable pub append_at : ℕ → Text → List Segment → List Segment
  append_at i text [] = record { index = i; content = text } ∷ []
  append_at i text (s ∷ rest) =
      let more = append_at i text rest in
      if s.index == i then record s { content = s.content ++ text } ∷ rest else s ∷ more

  -- `os.path.getsize(active)`, where it exists. A line of `json.dumps` is ASCII.
  unfoldable pub active_size : List Segment → Option ℕ
  active_size [] = none
  active_size (s ∷ []) = some (length s.content)
  active_size (s ∷ t ∷ rest) = active_size (t ∷ rest)

  -- The test of `append` before it writes.
  unfoldable pub must_rotate : Trail → Bool
  unfolding active_size
  must_rotate t = elim (active_size t.segments) [
    | none ↦ false
    | some size ↦ not (t.rotate_bytes == 0) && leb t.rotate_bytes size
  ]

  -- `_SEG_RE` has five digits: a file with a higher number is written, but never listed.
  abbrev pub is_listed : ℕ → Bool
  is_listed i = leb i 99999

  -- `Trail.append`
  unfoldable pub append : Trail → List ChangeRecord → Trail × ℕ
  append t [] = (t, 0)
  append t (r ∷ rs) =
      let active = active_index t.segments in
      let i = if must_rotate t then suc active else active in
      let written = record t { segments = append_at i (encode_records (r ∷ rs)) t.segments } in
      (if is_listed i then written else t, length (r ∷ rs))
