-- ===== src/Record/Codec.antt =====
-- What the trail relies on of `ChangeRecord.to_json` and `from_json`: a record is one line of text
-- between braces, and the line reads back as the record in the form that its values take on the way.
use any2helios_db.Prelude.{ℕ, ◌≡◌, false, Option, some, List, [], ◌∷◌, ◌++◌, ◌==◌}
use any2helios_db.Record.{ChangeRecord}

-- A text as its code points.
abbrev pub Text : Type 0
Text = List ℕ

abbrev pub NoNewline : Text → Type 0
NoNewline [] = Unit
NoNewline (c ∷ s) = ((c == 10) ≡ false) × NoNewline s

pub record Codec : Type 0 where
  pub to_json : ChangeRecord → Text
  -- `none` is the `ValueError` or `KeyError` of a line that is no record.
  pub from_json : Text → Option ChangeRecord
  pub canon : ChangeRecord → ChangeRecord
  pub one_line : (r : ChangeRecord) → NoNewline (to_json r)
  pub framed : (r : ChangeRecord) → (mid : Text) × (to_json r ≡ b'{' ∷ (mid ++ b'}' ∷ []))
  pub decodes : (r : ChangeRecord) → from_json (to_json r) ≡ some (canon r)
