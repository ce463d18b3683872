-- ===== src/Record/Wire/RoundTrip.antt =====
-- A record that is written as a JSON object is read back, with the timestamps in UTC and the values
-- that have no class of their own as their texts.
use any2helios_db.Prelude.{
  ℕ, String, Bool, true, false, Option, none, some, [], ◌∷◌, ◌≡◌, refl, if◌then◌else◌, str_eq,
  Bool-cases, inl, inr,
}
use any2helios_db.Json.{Json, Members, member_of, or_before, or_null, is_truthy}
use any2helios_db.Record.{Value, Dict, SourcePos, single, compound, malformed, ChangeRecord}
use any2helios_db.Record.Wire.{
  Classes, encode_value, untag, decode_value, encode_dict, decode_dict, add_field, before_json,
  pos_json, txn_json, end_json, optional_fields, record_json, dict_of, pos_of, txn_of, read_record,
}

or_before-none : (o : Option Json) → or_before o none ≡ o
or_before-none none = refl
or_before-none (some a) = refl

-- The field of a key, where it is written when present.
member_of-add_field :
    (key : String) (o : Option Json) (ms : Members) (k : String)
    → member_of (add_field key o ms) k
      ≡ or_before (member_of ms k) (if str_eq key k then o else none)
unfolding member_of
member_of-add_field key none ms k = elim (Bool-cases (str_eq key k)) [
  | inl same ↦ rw (same, or_before-none (member_of ms k)) refl
  | inr other ↦ rw (other, or_before-none (member_of ms k)) refl
]
member_of-add_field key (some v) ms k = refl

txn_of-txn_json : (n : Option ℕ) → txn_of (txn_json n) ≡ some n
txn_of-txn_json none = refl
txn_of-txn_json (some n) = refl

is_truthy-end_json : (b : Bool) → is_truthy (or_null (end_json b)) ≡ b
is_truthy-end_json true = refl
is_truthy-end_json false = refl

module _ (C : Classes) where
  open C use {decimal_of, bytes_of, timestamp_of, date_of, utc, malformed_pos}

  -- The text is one that the class gives: its constructor takes it as it is.
  abbrev pub IsRendered : Value → Type 0
  IsRendered (Value.decimal s) = decimal_of s ≡ some s
  IsRendered (Value.bytes s) = bytes_of s ≡ some s
  IsRendered (Value.timestamp s) = timestamp_of (utc s) ≡ some (utc s)
  IsRendered (Value.date s) = date_of s ≡ some s
  IsRendered _ = Unit

  abbrev pub AreRendered : Dict → Type 0
  AreRendered [] = Unit
  AreRendered ((k, v) ∷ d) = IsRendered v × AreRendered d

  -- What a reader has for a value.
  unfoldable pub read_value : Value → Value
  read_value (Value.timestamp s) = Value.timestamp (utc s)
  read_value (Value.document s) = Value.text s
  read_value (Value.set_literal s) = Value.text s
  read_value (Value.other s) = Value.text s
  read_value v = v

  unfoldable pub read_dict : Dict → Dict
  unfolding read_value
  read_dict [] = []
  read_dict ((k, v) ∷ d) = (k, read_value v) ∷ read_dict d

  decode_value-encode_value :
      (v : Value) → IsRendered v → decode_value C (encode_value C v) ≡ some (read_value v)
  unfolding encode_value decode_value read_value untag member_of
  decode_value-encode_value Value.null h = refl
  decode_value-encode_value (Value.boolean b) h = refl
  decode_value-encode_value (Value.int z) h = refl
  decode_value-encode_value (Value.float s) h = refl
  decode_value-encode_value (Value.text s) h = refl
  decode_value-encode_value (Value.decimal s) h = rw h refl
  decode_value-encode_value (Value.bytes s) h = rw h refl
  decode_value-encode_value (Value.timestamp s) h = rw h refl
  decode_value-encode_value (Value.date s) h = rw h refl
  decode_value-encode_value (Value.document s) h = refl
  decode_value-encode_value (Value.set_literal s) h = refl
  decode_value-encode_value (Value.other s) h = refl

  decode_dict-encode_dict :
      (d : Dict) → AreRendered d → decode_dict C (encode_dict C d) ≡ some (read_dict d)
  unfolding encode_dict decode_dict read_dict
  decode_dict-encode_dict [] h = refl
  decode_dict-encode_dict ((k, v) ∷ d) (v_ok, d_ok) =
      rw (decode_value-encode_value v v_ok, decode_dict-encode_dict d d_ok) refl

  dict_of-before_json :
      (d : Dict) → AreRendered d → dict_of C (before_json C d) ≡ some (read_dict d)
  unfolding read_dict
  dict_of-before_json [] h = refl
  dict_of-before_json (e ∷ d) h = decode_dict-encode_dict (e ∷ d) h

  pos_of-pos_json :
      (p : Option SourcePos)
      → pos_of (some malformed_pos) ≡ some malformed
      → pos_of (pos_json C p) ≡ p
  pos_of-pos_json none h = refl
  pos_of-pos_json (some (single p)) h = refl
  pos_of-pos_json (some (compound b q)) h = refl
  pos_of-pos_json (some malformed) h = h

  abbrev pub field_of : ChangeRecord → String → Option Json
  field_of r key =
      or_before
        (or_before
          (or_before (if str_eq "txn_end" key then end_json r.txn_end else none)
            (if str_eq "txn_id" key then txn_json r.txn_id else none))
          (if str_eq "source_pos" key then pos_json C r.source_pos else none))
        (if str_eq "before_key" key then before_json C r.before_key else none)

  member_of-optional_fields :
      (r : ChangeRecord) (key : String) → member_of (optional_fields C r) key ≡ field_of r key
  unfolding optional_fields member_of
  member_of-optional_fields r key =
      rw
        (
          member_of-add_field "before_key" (before_json C r.before_key),
          member_of-add_field "source_pos" (pos_json C r.source_pos),
          member_of-add_field "txn_id" (txn_json r.txn_id),
          member_of-add_field "txn_end" (end_json r.txn_end),
        )
        refl

  -- The record that a reader has.
  unfoldable pub read_back : ChangeRecord → ChangeRecord
  unfolding read_dict
  read_back r = record {
    op = r.op;
    schema = r.schema;
    table = r.table;
    key = read_dict r.key;
    after = read_dict r.after;
    scn = r.scn;
    commit_ts = r.commit_ts;
    before_key = read_dict r.before_key;
    source_pos = r.source_pos;
    txn_id = r.txn_id;
    txn_end = r.txn_end;
  }

  -- Where the class of each value takes its text back, and the position that is no position is read
  -- as one, what `to_json` writes for a record is read by `from_json` as that record, with each
  -- timestamp in UTC and each document, set literal and value of another class as its text.
  pub read_record-record_json :
      (r : ChangeRecord)
      → AreRendered r.key
      → AreRendered r.after
      → AreRendered r.before_key
      → pos_of (some malformed_pos) ≡ some malformed
      → read_record C (record_json C r) ≡ some (read_back r)
  unfolding read_record record_json member_of read_back
  read_record-record_json r key_ok after_ok before_ok pos_ok =
      simp
        (
          member_of-optional_fields r,
          or_before-none,
          decode_dict-encode_dict r.key key_ok,
          decode_dict-encode_dict r.after after_ok,
          dict_of-before_json r.before_key before_ok,
          pos_of-pos_json r.source_pos pos_ok,
          txn_of-txn_json,
          is_truthy-end_json,
        )
        refl
