-- ===== src/Examples/Sample.antt =====
-- A codec, records, a table and a target for the examples.
use any2helios_db.Prelude.{
  ℕ, zero, suc, ◌+◌, ◌≡◌, refl, ap, false, Bool, Option, none, some, [], ◌∷◌, ◌++◌, ◌==◌,
  if◌then◌else◌, length, replicate,
}
use any2helios_db.Prelude.Int.{pos, pos_part}
use any2helios_db.Catalog.{Table}
use any2helios_db.Record.{Value, ChangeRecord, SourcePos}
use any2helios_db.Record.Codec.{Text, Codec, NoNewline}
use any2helios_db.Replicat.{Driver, Config, Action}

-- A record of transaction `txn` (0 is none) that updates the row `n`.
abbrev pub tagged : Option ℕ → Bool → ℕ → ChangeRecord
tagged txn end n = record {
  op = "U";
  schema = "app";
  table = "users";
  key = ("id", Value.int (pos n)) ∷ [];
  after = ("id", Value.int (pos n)) ∷ ("name", Value.text "x") ∷ [];
  scn = pos n;
  commit_ts = "";
  before_key = [];
  source_pos = some (SourcePos.compound 7 n);
  txn_id = txn;
  txn_end = end;
}

abbrev pub plain : ℕ → ChangeRecord
plain n = tagged none false n

-- The row 1 becomes the row 2.
abbrev pub move : ChangeRecord
move = record (plain 2) { before_key = ("id", Value.int (pos 1)) ∷ [] }

-- A line holds the number of the record in strokes.
abbrev pub strokes : ℕ → Text
strokes n = replicate n b'x'

abbrev pub count_strokes : Text → ℕ
count_strokes [] = 0
count_strokes (c ∷ s) = let n = count_strokes s in if c == b'x' then suc n else n

pub no_newline : (n : ℕ) → NoNewline (strokes n ++ b'}' ∷ [])
no_newline zero = (refl, tt)
no_newline (suc n) = (refl, no_newline n)

pub counts : (n : ℕ) → count_strokes (strokes n ++ b'}' ∷ []) ≡ n
counts zero = refl
counts (suc n) = ap suc (counts n)

abbrev pub unary_codec : Codec
unary_codec = record {
  to_json = λ r. b'{' ∷ (strokes (pos_part r.scn) ++ b'}' ∷ []);
  from_json = λ s. some (plain (count_strokes s));
  canon = λ r. plain (pos_part r.scn);
  one_line = λ r. (refl, no_newline (pos_part r.scn));
  framed = λ r. (strokes (pos_part r.scn), refl);
  decodes = λ r. ap (λ (n : ℕ). some (plain n)) (counts (pos_part r.scn));
}

abbrev pub users : Table
users = record {
  name = "users";
  schema = some "app";
  columns = "id" ∷ "name" ∷ [];
  primary_key = some ("id" ∷ []);
}

abbrev same_int : Value → Value → Bool
same_int (Value.int (pos a)) (Value.int (pos b)) = a == b
same_int _ _ = false

abbrev pub config : Config
config = record { find = λ name. some users; preserve_case = false; same = same_int }

-- A target that counts the rows written, with a transaction or without.
pub data Db : Type 0 where
  idle : ℕ → Db
  busy : ℕ → ℕ → Db

abbrev pub committed_rows : Db → ℕ
committed_rows (idle d) = d
committed_rows (busy d p) = d

abbrev pub IsBusy : Db → Type 0
IsBusy (idle d) = ⊥
IsBusy (busy d p) = Unit

abbrev write : ℕ → Action Db ℕ
write n (idle d) = (idle (d + n), some n)
write n (busy d p) = (busy d (p + n), some n)

abbrev start : Action Db Unit
start (idle d) = (busy d d, some tt)
start (busy d p) = (busy d p, none)

abbrev finish : Action Db Unit
finish (idle d) = (idle d, none)
finish (busy d p) = (idle p, some tt)

abbrev undo : Action Db Unit
undo (idle d) = (idle d, none)
undo (busy d p) = (idle d, some tt)

abbrev pub counter : Driver Db
counter = record {
  upsert = λ t ks cs rows. write (length rows);
  delete_keys = λ t ks rows. write (length rows);
  update_columns = λ t ks cs rows. write (length rows);
  begin = start;
  commit = finish;
  rollback = undo;
  ping = λ s. (s, some tt);
}
