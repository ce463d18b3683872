-- ===== src/Trail/Heal.antt =====
-- `heal_torn_tail` of cdc/trail.py: a crash may leave a fragment of a line at the end of the active
-- segment, and the next extract cuts it off.
pub mod Restores
use any2helios_db.Prelude.{
  ℕ, zero, suc, ◌+◌, ◌-◌, min, Bool, true, false, Option, none, some, List, [], ◌∷◌, ◌==◌,
  if◌then◌else◌, length, take, drop,
}
use any2helios_db.Record.Codec.{Text}
use any2helios_db.Trail.{Segment, Trail, ends_line, is_empty}

-- `data.rfind(b"\n")`; `none` is its -1.
unfoldable pub rfind_newline : Text → Option ℕ
rfind_newline [] = none
rfind_newline (c ∷ s) = elim (rfind_newline s) [
  | some i ↦ some (suc i)
  | none ↦ if c == 10 then some 0 else none
]

-- `f.seek(pos); f.read(count)`
abbrev pub read_at : Text → ℕ → ℕ → Text
read_at f pos count = take count (drop pos f)

-- The loop of `_last_newline_offset`, which reads the file backwards in blocks. Every round moves
-- `pos` down, so the file's size in rounds is enough.
unfoldable pub offset_loop : ℕ → ℕ → Text → ℕ → ℕ
offset_loop zero chunk f pos = 0
offset_loop (suc fuel) chunk f pos =
    let count = min chunk pos in
    let pos' = pos - count in
    let further = offset_loop fuel chunk f pos' in
    let found : ℕ = elim (rfind_newline (read_at f pos' count)) [
      | some nl ↦ pos' + nl + 1
      | none ↦ further
    ] in
    if pos == 0 then 0 else found

-- `_last_newline_offset`
unfoldable pub last_newline_offset : Text → ℕ → ℕ
unfolding offset_loop rfind_newline
last_newline_offset f size = offset_loop (suc size) 4096 f size

-- What `heal_torn_tail` leaves of the active file, and whether it cut.
unfoldable pub heal_file : Text → Text × Bool
unfolding ends_line last_newline_offset
heal_file f =
    if is_empty f
    then (f, false)
    else if ends_line f
    then (f, false)
    else (take (last_newline_offset f (length f)) f, true)

unfoldable pub heal_segments : List Segment → List Segment × Bool
unfolding heal_file
heal_segments [] = ([], false)
heal_segments (s ∷ []) =
    let (text, cut) = heal_file s.content in (record s { content = text } ∷ [], cut)
heal_segments (s ∷ t ∷ rest) = let (rest', cut) = heal_segments (t ∷ rest) in (s ∷ rest', cut)

-- `heal_torn_tail`
unfoldable pub heal_torn_tail : Trail → Trail × Bool
unfolding heal_segments
heal_torn_tail t = let (segs, cut) = heal_segments t.segments in (record t { segments = segs }, cut)
