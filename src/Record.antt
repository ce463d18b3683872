-- ===== src/Record.antt =====
-- core/change_record.py: the unit that flows from the capture through the trail to the target.
-- A value of a library class (Decimal, datetime, bytes, a JSON document, a set) stands for the text
-- that the class's own renderer gives it.
pub mod Codec
pub mod Wire
use any2helios_db.Prelude.{
  ℕ, String, Bool, Option, none, some, List, [], ◌∷◌, ltb, ◌==◌, if◌then◌else◌,
}
use any2helios_db.Prelude.Int.{ℤ}

pub data Value : Type 0 where
  null : Value
  boolean : Bool → Value
  int : ℤ → Value
  float text decimal bytes timestamp date document set_literal other : String → Value

-- Python's `dict` with its items in insertion order.
abbrev pub Dict : Type 0
Dict = List (String × Value)

-- An `int`, a `[base, seq]`, or anything else that a line may hold (a bool, a text, a float).
pub data SourcePos : Type 0 where
  single : ℕ → SourcePos
  compound : ℕ → ℕ → SourcePos
  malformed : SourcePos

pub record ChangeRecord : Type 0 where
  pub op : String
  pub schema : String
  pub table : String
  pub key : Dict
  pub after : Dict
  pub scn : ℤ
  pub commit_ts : String
  pub before_key : Dict
  pub source_pos : Option SourcePos
  pub txn_id : Option ℕ
  pub txn_end : Bool

-- `source_pos_key`
unfoldable pub source_pos_key : Option SourcePos → Option (ℕ × ℕ)
source_pos_key none = none
source_pos_key (some (single p)) = some (p, 0)
source_pos_key (some (compound base seq)) = some (base, seq)
source_pos_key (some malformed) = none

-- `a < b` on pairs of Python
abbrev pub key_lt : ℕ × ℕ → ℕ × ℕ → Bool
key_lt (a, b) (c, d) = if ltb a c then Bool.true else if a == c then ltb b d else Bool.false
