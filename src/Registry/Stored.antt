-- ===== src/Registry/Stored.antt =====
-- What the registry hands back after it was written.
use any2helios_db.Prelude.{
  ℕ, ◌≡◌, refl, sym, ap, ◌∙◌, String, Bool, true, false, ◌&&◌, Option, none, some, List, [], ◌∷◌,
  ◌++◌, str_eq, eq_iff, Bool-cases, Option-cases, inl, inr, ◌⊎◌,
}
use mathlib.Core.Option
use mathlib.Core.Option.{none-ne-some, some_inj}
use any2helios_db.Prelude.Int.{pos}
use any2helios_db.Record.Codec.{Text}
use any2helios_db.Ledger.{update_where, first_where}
use any2helios_db.Registry.{
  Row, ExtractInfo, Registry, registered, applying, any_comma, join_tables, nonempty, read_row,
  is_named, set_apply_cursor, get, new_row, register,
}
use any2helios_db.Registry.Rows.{
  nonempty-join_tables, first_where-update_where, first_where-update_other, first_where-snoc,
  first_where-snoc_other,
}

-- What the next `get` of the extract should find.
abbrev pub registered_info : Option ExtractInfo → String → String → List Text → Bool → ExtractInfo
registered_info none name schema tables adopt_tables = record {
  name = name;
  schema = schema;
  tables = nonempty tables;
  watermark = pos 0;
  apply_cursor = 0;
  state = registered;
}
registered_info (some x) name schema tables true = record x {
  schema = schema;
  tables = nonempty tables;
}
registered_info (some x) name schema tables false = record x { schema = schema }

-- A name with a comma would be stored.
abbrev pub refuses : Option ExtractInfo → List Text → Bool → Bool
refuses none tables adopt_tables = any_comma tables
refuses (some x) tables adopt_tables = adopt_tables && any_comma tables

-- `get` reads the row that is found.
get-found :
    (name : String) (rows : Registry) (o : Option Row)
    → first_where (is_named name) rows ≡ o
    → get name rows ≡ Option.map read_row o
unfolding get
get-found name rows o e = rw (sym e) (as_read (first_where (is_named name) rows))
  where
    as_read :
        (q : Option Row)
        → elim q [ none ↦ none | some r ↦ some (read_row r) ] ≡ Option.map read_row q
    as_read none = refl
    as_read (some r) = refl

get-cong :
    (other : String) (rows rows' : Registry)
    → first_where (is_named other) rows' ≡ first_where (is_named other) rows
    → get other rows' ≡ get other rows
get-cong other rows rows' e =
    get-found other rows' (first_where (is_named other) rows) e
    ∙ sym (get-found other rows (first_where (is_named other) rows) refl)

-- What `register` leaves of the extract and of another: `stored` is its result.
abbrev pub Stores : String → String → Registry → Option ExtractInfo → Option Registry → Type 0
Stores name other rows info result =
    (stored : Registry) × (result ≡ some stored)
    × (get name stored ≡ info)
    × (get other stored ≡ get other rows)

inserts :
    (name schema : String) (tables : List Text) (other : String) (rows : Registry)
    → str_eq name other ≡ false
    → any_comma tables ≡ false
    → first_where (is_named name) rows ≡ none
    → Stores name other rows
        (some (registered_info none name schema tables true))
        (some (rows ++ new_row name schema tables ∷ []))
inserts name schema tables other rows differs clean absent =
    let new = new_row name schema tables in
    let itself : is_named name new ≡ true = (eq_iff name name).1 refl in
    let found : first_where (is_named name) (rows ++ new ∷ []) ≡ some new =
      first_where-snoc name rows new absent ∙ rw itself refl in
    (
      rows ++ new ∷ [],
      refl,
      get-found name (rows ++ new ∷ []) (some new) found
          ∙ rw (nonempty-join_tables tables clean) refl,
      get-cong other rows (rows ++ new ∷ []) (first_where-snoc_other other rows new differs),
    )

updates :
    (name other : String) (change : Row → Row) (rows : Registry) (r : Row)
    → ((q : Row) → (change q).name ≡ q.name)
    → str_eq name other ≡ false
    → first_where (is_named name) rows ≡ some r
    → Stores name other rows
        (some (read_row (change r)))
        (some (update_where (is_named name) change rows))
updates name other change rows r same_name differs at =
    let after = update_where (is_named name) change rows in
    let found : first_where (is_named name) after ≡ some (change r) =
      first_where-update_where name change same_name rows ∙ ap (Option.map change) at in
    (
      after,
      refl,
      get-found name after (some (change r)) found,
      get-cong other rows after (first_where-update_other name change same_name other rows differs),
    )

pub get-set_apply_cursor :
    (name : String) (cursor : ℕ) (rows : Registry) (x : ExtractInfo)
    → get name rows ≡ some x
    → get name (set_apply_cursor name cursor rows)
      ≡ some (record x { apply_cursor = cursor; state = applying })
unfolding set_apply_cursor
get-set_apply_cursor name cursor rows x there = go (first_where (is_named name) rows) refl
  where
    change : Row → Row
    change = λ r. record r { apply_cursor = cursor; state = applying }

    go :
        (o : Option Row)
        → first_where (is_named name) rows ≡ o
        → get name (update_where (is_named name) change rows)
          ≡ some (record x { apply_cursor = cursor; state = applying })
    go none e = absurd (none-ne-some x (sym (get-found name rows none e) ∙ there))
    go (some r) e =
        let same : read_row r ≡ x = some_inj.0 (sym (get-found name rows (some r) e) ∙ there) in
        get-found name (update_where (is_named name) change rows) (some (change r))
          (first_where-update_where name change (λ q. refl) rows ∙ ap (Option.map change) e)
        ∙ ap (λ (y : ExtractInfo). some (record y { apply_cursor = cursor; state = applying })) same

-- The two updates of a row that is there.
abbrev adopt : String → List Text → Row → Row
adopt schema tables r = record r { schema = schema; tables_csv = join_tables tables }

abbrev pin : String → Row → Row
pin schema r = record r { schema = schema }

module _ (name schema : String) (tables : List Text) (rows : Registry) where
  refused_new :
      (adopt_tables : Bool)
      → get name rows ≡ none
      → any_comma tables ≡ true
      → register name schema tables adopt_tables rows ≡ none
  unfolding register
  refused_new adopt_tables e comma = rw (e, comma, register) refl

  stored_new :
      (adopt_tables : Bool)
      → get name rows ≡ none
      → any_comma tables ≡ false
      → register name schema tables adopt_tables rows
        ≡ some (rows ++ new_row name schema tables ∷ [])
  unfolding register
  stored_new adopt_tables e clean = rw (e, clean, register) refl

  module _ (x : ExtractInfo) (there : get name rows ≡ some x) where
    refused_adopted : any_comma tables ≡ true → register name schema tables true rows ≡ none
    unfolding register
    refused_adopted comma = rw (there, comma, register) refl

    stored_adopted :
        any_comma tables ≡ false
        → register name schema tables true rows
          ≡ some (update_where (is_named name) (adopt schema tables) rows)
    unfolding register
    stored_adopted clean = rw (there, clean, register) refl

    stored_pinned :
        register name schema tables false rows
        ≡ some (update_where (is_named name) (pin schema) rows)
    unfolding register
    stored_pinned = rw (there, register) refl

-- Every `register` either refuses, because a name with a comma would be stored, or it succeeds: the
-- next `get` finds the extract with the schema and, where it is new or adopts them, the names given
-- that are not empty; an extract that was there keeps its watermark, its cursor and, without
-- adopting, its tables. Another extract stays as it is.
pub get-register :
    (name schema : String) (tables : List Text) (adopt_tables : Bool) (other : String)
    (rows : Registry)
    → str_eq name other ≡ false
    → ((refuses (get name rows) tables adopt_tables ≡ true)
        × (register name schema tables adopt_tables rows ≡ none))
      ⊎ Stores name other rows
          (some (registered_info (get name rows) name schema tables adopt_tables))
          (register name schema tables adopt_tables rows)
get-register name schema tables adopt_tables other rows differs =
    elim (Option-cases (first_where (is_named name) rows)) [
      | inl absent ↦
          let gone = get-found name rows none absent in
          rw gone (elim (Bool-cases (any_comma tables)) [
            | inl comma ↦ inl (comma, refused_new name schema tables rows adopt_tables gone comma)
            | inr clean ↦ inr (
                rw (stored_new name schema tables rows adopt_tables gone clean)
                  (inserts name schema tables other rows differs clean absent))
          ])
      | inr (r, at) ↦ rw (get-found name rows (some r) at) (existing adopt_tables r at)
    ]
  where
    existing :
        (b : Bool) (r : Row)
        → first_where (is_named name) rows ≡ some r
        → ((refuses (some (read_row r)) tables b ≡ true)
            × (register name schema tables b rows ≡ none))
          ⊎ Stores name other rows
              (some (registered_info (some (read_row r)) name schema tables b))
              (register name schema tables b rows)
    existing true r at =
        let there = get-found name rows (some r) at in
        elim (Bool-cases (any_comma tables)) [
          | inl comma ↦
              inl (comma, refused_adopted name schema tables rows (read_row r) there comma)
          | inr clean ↦
              let back = nonempty-join_tables tables clean in
              inr (
                rw (stored_adopted name schema tables rows (read_row r) there clean, sym back)
                  (updates name other (adopt schema tables) rows r (λ q. refl) differs at))
        ]
    existing false r at =
        let there = get-found name rows (some r) at in
        inr (
          rw (stored_pinned name schema tables rows (read_row r) there)
            (updates name other (pin schema) rows r (λ q. refl) differs at))
