-- ===== src/Examples/Wire.antt =====
-- A record of core/change_record.py that is written and read back.
use any2helios_db.Prelude.{true, none, some, [], ◌∷◌, ◌≡◌, refl, if◌then◌else◌, str_eq}
use any2helios_db.Prelude.Int.{pos}
use any2helios_db.Json.{Json}
use any2helios_db.Record.{Value, compound, ChangeRecord}
use any2helios_db.Record.Wire.{Classes, record_json, read_record}
use any2helios_db.Record.Wire.RoundTrip.{read_back, read_record-record_json}

abbrev classes : Classes
classes = record {
  decimal_of = λ s. if str_eq s "" then none else some s;
  bytes_of = λ s. if str_eq s "=" then none else some s;
  timestamp_of = λ s. if str_eq s "" then none else some s;
  date_of = λ s. if str_eq s "" then none else some s;
  utc = λ s. if str_eq s "2024-05-01T02:00:00+02:00" then "2024-05-01T00:00:00+00:00" else s;
  is_zero = λ s. str_eq s "0.0";
  malformed_pos = Json.boolean true;
}

abbrev moved_row : ChangeRecord
moved_row = record {
  op = "U";
  schema = "public";
  table = "orders";
  key = ("id", Value.int (pos 8)) ∷ [];
  after =
      ("id", Value.int (pos 8))
      ∷ ("price", Value.decimal "10.50")
      ∷ ("paid_at", Value.timestamp "2024-05-01T02:00:00+02:00")
      ∷ ("tags", Value.set_literal "a,b")
      ∷ [];
  scn = pos 41;
  commit_ts = "";
  before_key = ("id", Value.int (pos 7)) ∷ [];
  source_pos = some (compound 900 2);
  txn_id = some 5;
  txn_end = true;
}

read_record-record_json_example :
    read_record classes (record_json classes moved_row)
    ≡ some (record moved_row {
      after =
          ("id", Value.int (pos 8))
          ∷ ("price", Value.decimal "10.50")
          ∷ ("paid_at", Value.timestamp "2024-05-01T00:00:00+00:00")
          ∷ ("tags", Value.text "a,b")
          ∷ [];
    })
unfolding read_back
read_record-record_json_example =
    read_record-record_json classes moved_row (tt, tt) (tt, (refl, (refl, (tt, tt)))) (tt, tt) refl
