-- ===== src/Record/Wire.antt =====
-- `_encode`, `_decode`, `to_json` and `from_json` of core/change_record.py, up to the JSON values: how
-- `json` writes and reads those is left to the library. A field whose value no writer puts there (a
-- number as a table's name, a list as a column) is read as a failure.
pub mod RoundTrip
use any2helios_db.Prelude.{
  ℕ, String, Bool, true, false, Option, none, some, List, [], ◌∷◌, if◌then◌else◌, str_eq,
}
use any2helios_db.Prelude.Int.{ℤ, pos, negsuc}
use any2helios_db.Json
use any2helios_db.Json.{
  Json, object, array, no_item, item, Members, no_member, member, member_of, or_null, is_truthy,
}
use any2helios_db.Record.{Value, Dict, SourcePos, single, compound, malformed, ChangeRecord}

-- The classes of the library on the texts that stand for their values: `Decimal`, `b64decode`,
-- `datetime.fromisoformat` and `date.fromisoformat` with `none` for a text that they refuse,
-- `astimezone(utc)` where the timestamp has a zone, whether a float is zero, and the JSON value of a
-- position that is no position.
pub record Classes : Type 0 where
  pub decimal_of : String → Option String
  pub bytes_of : String → Option String
  pub timestamp_of : String → Option String
  pub date_of : String → Option String
  pub utc : String → String
  pub is_zero : String → Bool
  pub malformed_pos : Json

-- An exception ends what would follow.
abbrev pub and_then : {A B : Type 0} → Option A → (A → Option B) → Option B
and_then none k = none
and_then (some a) k = k a

-- `{"__t__": tag, "v": v}`
abbrev pub tagged : String → String → Json
tagged tag v = object (member "__t__" (Json.text tag) (member "v" (Json.text v) no_member))

abbrev pub as_value : (String → Value) → Option String → Option Value
as_value f none = none
as_value f (some s) = some (f s)

-- `d[key] = v` where there is a value.
abbrev pub add_field : String → Option Json → Members → Members
add_field key none ms = ms
add_field key (some v) ms = member key v ms

abbrev pub txn_json : Option ℕ → Option Json
txn_json none = none
txn_json (some n) = some (Json.int (pos n))

abbrev pub end_json : Bool → Option Json
end_json b = if b then some (Json.boolean true) else none

-- `d["op"]` and its like
abbrev pub text_of : Option Json → Option String
text_of (some (Json.text s)) = some s
text_of _ = none

-- `int(d.get("scn", 0))`
abbrev pub int_of : Option Json → Option ℤ
int_of none = some (pos 0)
int_of (some (Json.int z)) = some z
int_of (some _) = none

-- `d.get("commit_ts", "")`
abbrev pub text_or_empty : Option Json → Option String
text_or_empty none = some ""
text_or_empty (some (Json.text s)) = some s
text_or_empty (some _) = none

-- `d.get("source_pos")`, and what `source_pos_key` makes of it
abbrev pub pos_of : Option Json → Option SourcePos
pos_of none = none
pos_of (some Json.null) = none
pos_of (some (Json.int (pos p))) = some (single p)
pos_of (some (array (item (Json.int (pos base)) (item (Json.int (pos seq)) no_item)))) =
    some (compound base seq)
pos_of (some _) = some malformed

-- `d.get("txn_id")`
abbrev pub txn_of : Option Json → Option (Option ℕ)
txn_of none = some none
txn_of (some Json.null) = some none
txn_of (some (Json.int (pos n))) = some (some n)
txn_of (some _) = none

module _ (C : Classes) where
  open C use {decimal_of, bytes_of, timestamp_of, date_of, utc, is_zero, malformed_pos}

  -- `_encode`
  unfoldable pub encode_value : Value → Json
  encode_value Value.null = Json.null
  encode_value (Value.boolean b) = Json.boolean b
  encode_value (Value.int z) = Json.int z
  encode_value (Value.float s) = Json.float s (is_zero s)
  encode_value (Value.text s) = Json.text s
  encode_value (Value.decimal s) = tagged "dec" s
  encode_value (Value.bytes s) = tagged "b64" s
  encode_value (Value.timestamp s) = tagged "ts" (utc s)
  encode_value (Value.date s) = tagged "d" s
  encode_value (Value.document s) = tagged "json" s
  encode_value (Value.set_literal s) = tagged "set" s
  encode_value (Value.other s) = tagged "str" s

  -- The end of `_decode`, by the tag.
  unfoldable pub untag : String → String → Option Value
  untag t raw =
      if str_eq t "dec"
      then as_value Value.decimal (decimal_of raw)
      else if str_eq t "b64"
      then as_value Value.bytes (bytes_of raw)
      else if str_eq t "ts"
      then as_value Value.timestamp (timestamp_of raw)
      else if str_eq t "d"
      then as_value Value.date (date_of raw)
      else some (Value.text raw)

  abbrev pub untag_texts : Option Json → Option Json → Option Value
  untag_texts (some (Json.text t)) (some (Json.text raw)) = untag t raw
  untag_texts _ _ = none

  -- `_decode`
  unfoldable pub decode_value : Json → Option Value
  unfolding untag member_of
  decode_value Json.null = some Value.null
  decode_value (Json.boolean b) = some (Value.boolean b)
  decode_value (Json.int z) = some (Value.int z)
  decode_value (Json.float s z) = some (Value.float s)
  decode_value (Json.text s) = some (Value.text s)
  decode_value (array items) = none
  decode_value (object ms) = untag_texts (member_of ms "__t__") (member_of ms "v")

  -- `{k: _encode(v) for k, v in d.items()}`
  unfoldable pub encode_dict : Dict → Members
  unfolding encode_value
  encode_dict [] = no_member
  encode_dict ((k, v) ∷ d) = member k (encode_value v) (encode_dict d)

  -- `{k: _decode(v) for k, v in d.items()}`
  unfoldable pub decode_dict : Members → Option Dict
  unfolding decode_value
  decode_dict no_member = some []
  decode_dict (member k v ms) =
      and_then (decode_value v) (λ v'. and_then (decode_dict ms) (λ d. some ((k, v') ∷ d)))

  -- `self.before_key`, where it is not empty.
  abbrev pub before_json : Dict → Option Json
  before_json [] = none
  before_json (e ∷ d) = some (object (encode_dict (e ∷ d)))

  abbrev pub pos_json : Option SourcePos → Option Json
  pos_json none = none
  pos_json (some (single p)) = some (Json.int (pos p))
  pos_json (some (compound base seq)) =
      some (array (item (Json.int (pos base)) (item (Json.int (pos seq)) no_item)))
  pos_json (some malformed) = some malformed_pos

  -- The fields that are written only when present.
  unfoldable pub optional_fields : ChangeRecord → Members
  unfolding encode_dict
  optional_fields r = add_field "before_key" (before_json r.before_key) (
      add_field "source_pos" (pos_json r.source_pos) (
        add_field "txn_id" (txn_json r.txn_id)
          (add_field "txn_end" (end_json r.txn_end) no_member)))

  -- What `to_json` hands to `json.dumps`.
  unfoldable pub record_json : ChangeRecord → Members
  unfolding encode_dict optional_fields
  record_json r = member "op" (Json.text r.op) (
      member "schema" (Json.text r.schema) (
        member "table" (Json.text r.table) (
          member "key" (object (encode_dict r.key)) (
            member "after" (object (encode_dict r.after)) (
              member "scn" (Json.int r.scn)
                (member "commit_ts" (Json.text r.commit_ts) (optional_fields r)))))))

  -- `d.get("key", {}).items()`, decoded
  abbrev pub dict_of : Option Json → Option Dict
  dict_of none = some []
  dict_of (some (object ms)) = decode_dict ms
  dict_of (some _) = none

  -- What `from_json` makes of the object that `json.loads` returns.
  unfoldable pub read_record : Members → Option ChangeRecord
  unfolding decode_dict member_of
  read_record d = and_then (text_of (member_of d "op")) (λ op.
      and_then (text_of (member_of d "schema")) (λ schema.
        and_then (text_of (member_of d "table")) (λ table.
          and_then (dict_of (member_of d "key")) (λ key.
            and_then (dict_of (member_of d "after")) (λ after.
              and_then (int_of (member_of d "scn")) (λ scn.
                and_then (text_or_empty (member_of d "commit_ts")) (λ commit_ts.
                  and_then (dict_of (member_of d "before_key")) (λ before_key.
                    and_then (txn_of (member_of d "txn_id")) (λ txn_id. some (record {
                      op = op;
                      schema = schema;
                      table = table;
                      key = key;
                      after = after;
                      scn = scn;
                      commit_ts = commit_ts;
                      before_key = before_key;
                      source_pos = pos_of (member_of d "source_pos");
                      txn_id = txn_id;
                      txn_end = is_truthy (or_null (member_of d "txn_end"));
                    }))))))))))
