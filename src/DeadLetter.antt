-- ===== src/DeadLetter.antt =====
-- cdc/deadletter.py: the file of the records that the target rejects for good. A file that is not
-- there reads like an empty one, so the file is its text.

pub mod File
pub mod Once
use mathlib.Core.Option
use any2helios_db.Prelude.{
  ℕ, suc, ◌≡◌, String, Bool, true, false, ◌||◌, Option, none, some, List, [], ◌∷◌, ◌++◌,
  if◌then◌else◌, ◌==◌,
}
use any2helios_db.Record.{ChangeRecord, SourcePos}
use any2helios_db.Record.Codec.{Text, NoNewline}
use any2helios_db.Trail.{split_lines, strip, is_empty}

-- The time and the reason of an entry, which nothing reads back, are left to its encoding.
pub record Entry : Type 0 where
  pub letter : ChangeRecord
  pub cursor : ℕ

-- What the file relies on of `json`: an entry is one line of text between braces, and the position
-- that was put in under "source_pos" is found again.
pub record Journal : Type 0 where
  pub dumps : Entry → Text
  pub dump_pos : SourcePos → Text
  -- `json.dumps(d.get("source_pos"))` after `json.loads`, with `none` inside for a position that is
  -- not there; `none` outside is the `ValueError`.
  pub loads_pos : Text → Option (Option Text)
  pub one_line : (e : Entry) → NoNewline (dumps e)
  pub framed : (e : Entry) → (mid : Text) × (dumps e ≡ b'{' ∷ (mid ++ b'}' ∷ []))
  pub finds : (e : Entry) → loads_pos (dumps e) ≡ some (Option.map dump_pos e.letter.source_pos)

abbrev pub same_text : Text → Text → Bool
same_text [] [] = true
same_text (c ∷ s) (d ∷ t) = if c == d then same_text s t else false
same_text _ _ = false

-- `key in seen`
abbrev pub is_seen : Text → List Text → Bool
is_seen key [] = false
is_seen key (k ∷ seen) = same_text key k || is_seen key seen

-- The loop of `count`.
unfoldable pub count_letters : List Text → ℕ
count_letters [] = 0
count_letters (l ∷ ls) = let n = count_letters ls in if is_empty (strip l) then n else suc n

-- `count`
unfoldable pub count : Text → ℕ
unfolding count_letters split_lines strip
count file = count_letters (split_lines file)

module _ (J : Journal) where
  open J use {dumps, dump_pos, loads_pos}

  abbrev pub keep_pos : Option (Option Text) → List Text → List Text
  keep_pos none seen = seen
  keep_pos (some none) seen = seen
  keep_pos (some (some key)) seen = key ∷ seen

  -- The loop of `seen_source_positions`; the set is a list.
  unfoldable pub seen_loop : List Text → List Text
  seen_loop [] = []
  seen_loop (l ∷ ls) =
      let seen = seen_loop ls in
      if is_empty (strip l) then seen else keep_pos (loads_pos (strip l)) seen

  -- `seen_source_positions`
  unfoldable pub seen_source_positions : Text → List Text
  unfolding seen_loop split_lines strip
  seen_source_positions file = seen_loop (split_lines file)

  -- `_pos_key`
  unfoldable pub pos_key : ChangeRecord → Option Text
  pos_key r = Option.map dump_pos r.source_pos

  -- `append`
  unfoldable pub append_letter : ChangeRecord → ℕ → Text → Text
  append_letter r cursor file = file ++ (dumps (record { letter = r; cursor = cursor }) ++ 10 ∷ [])
