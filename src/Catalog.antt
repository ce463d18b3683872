-- ===== src/Catalog.antt =====
-- core/catalog_model.py: what the loader and the change capture read of a source table.
use any2helios_db.Prelude.{
  String, ◌<>◌, Bool, Option, none, some, List, [], ◌∷◌, if◌then◌else◌, str_eq,
}
use any2helios_db.Ident.{fold}

-- `primary_key` is the list of its columns; a table without a key has `none`.
pub record Table : Type 0 where
  pub name : String
  pub schema : Option String
  pub columns : List String
  pub primary_key : Option (List String)

-- `Table.fqn`: the empty schema name counts as none.
unfoldable pub fqn : Table → String
fqn t = elim t.schema [
  | none ↦ t.name
  | some s ↦ if str_eq s "" then t.name else s <> ("." <> t.name)
]

-- `Table.target_name`
unfoldable pub target_name : Table → Bool → String
unfolding fold
target_name t preserve_case = fold t.name preserve_case

-- The lone column of a single-column key: the test of `_single_pk_col` and of `compute_chunks`.
unfoldable pub single_column : Option (List String) → Option String
single_column (some (c ∷ [])) = some c
single_column _ = none

-- `pk and len(pk.columns) == 1`, and the column
unfoldable pub single_pk_col : Table → Option String
unfolding single_column
single_pk_col t = single_column t.primary_key
