-- ===== src/Registry.antt =====
-- cdc/registry.py: the sqlite table of the named extracts, as the list of its rows. A table's name
-- is the list of its characters, since the registry cuts it.
pub mod Rows
pub mod Stored
use any2helios_db.Prelude.{
  ℕ, zero, suc, String, Bool, true, false, not, ◌&&◌, ◌||◌, Option, none, some, List, [], ◌∷◌, ◌++◌,
  ◌==◌, if◌then◌else◌, str_eq,
}
use any2helios_db.Prelude.Int.{ℤ, pos}
use any2helios_db.Record.Codec.{Text}
use any2helios_db.Trail.{is_empty}
use any2helios_db.CopyCodec.{join_fields, split_fields}
use any2helios_db.Ledger.{update_where, first_where, any_where, select_where}

pub data ExtractState : Type 0 where
  registered capturing applying : ExtractState

-- A row of `extracts`.
pub record Row : Type 0 where
  pub name : String
  pub schema : String
  pub tables_csv : Text
  pub watermark : ℤ
  pub apply_cursor : ℕ
  pub state : ExtractState

-- `Extract`
pub record ExtractInfo : Type 0 where
  pub name : String
  pub schema : String
  pub tables : List Text
  pub watermark : ℤ
  pub apply_cursor : ℕ
  pub state : ExtractState

abbrev pub Registry : Type 0
Registry = List Row

-- `"," in t`
abbrev pub has_comma : Text → Bool
has_comma [] = false
has_comma (c ∷ s) = c == 44 || has_comma s

-- The test of `_reject_comma_table_names`.
unfoldable pub any_comma : List Text → Bool
any_comma [] = false
any_comma (t ∷ ts) = has_comma t || any_comma ts

-- `",".join(tables)`
abbrev pub join_tables : List Text → Text
join_tables tables = join_fields 44 tables

-- `[t for t in ts if t]`
abbrev pub nonempty : List Text → List Text
nonempty [] = []
nonempty (t ∷ ts) = let rest = nonempty ts in if is_empty t then rest else t ∷ rest

abbrev pub read_row : Row → ExtractInfo
read_row r = record {
  name = r.name;
  schema = r.schema;
  tables = nonempty (split_fields 44 r.tables_csv);
  watermark = r.watermark;
  apply_cursor = r.apply_cursor;
  state = r.state;
}

abbrev pub is_named : String → Row → Bool
is_named name r = str_eq r.name name

-- `get`
unfoldable pub get : String → Registry → Option ExtractInfo
get name rows = elim (first_where (is_named name) rows) [ none ↦ none | some r ↦ some (read_row r) ]

abbrev pub new_row : String → String → List Text → Row
new_row name schema tables = record {
  name = name;
  schema = schema;
  tables_csv = join_tables tables;
  watermark = pos 0;
  apply_cursor = 0;
  state = registered;
}

-- `register`; `none` is the `Any2HeliosError` of a name with a comma.
unfoldable pub register : String → String → List Text → Bool → Registry → Option Registry
unfolding get any_comma
register name schema tables adopt_tables rows = elim (get name rows) [
  | none ↦ if any_comma tables then none else some (rows ++ new_row name schema tables ∷ [])
  | some existing ↦
      let adopted =
        update_where (is_named name)
          (λ (r : Row). record r { schema = schema; tables_csv = join_tables tables }) rows in
      let pinned = update_where (is_named name) (λ (r : Row). record r { schema = schema }) rows in
      if adopt_tables then (if any_comma tables then none else some adopted) else some pinned
]

-- `remove`: what is left, and whether there was a row.
unfoldable pub remove : String → Registry → Registry × Bool
remove name rows =
    (select_where (λ (r : Row). not (is_named name r)) rows, any_where (is_named name) rows)

-- `set_watermark`
unfoldable pub set_watermark : String → ℤ → Registry → Registry
set_watermark name scn =
    update_where (is_named name) (λ (r : Row). record r { watermark = scn; state = capturing })

-- `set_apply_cursor`
unfoldable pub set_apply_cursor : String → ℕ → Registry → Registry
set_apply_cursor name cursor =
    update_where (is_named name) (λ (r : Row). record r { apply_cursor = cursor; state = applying })
