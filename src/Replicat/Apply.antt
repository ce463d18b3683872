-- ===== src/Replicat/Apply.antt =====
-- `Replicat.apply`, `apply_ordered` and what they do with a run of one kind.
use any2helios_db.Prelude.{
  ℕ, suc, ◌+◌, String, Bool, false, ◌&&◌, Option, none, some, List, [], ◌∷◌, ◌++◌, ◌==◌,
  if◌then◌else◌, str_eq, length,
}
use any2helios_db.Ident.{fold}
use any2helios_db.Catalog.{Table, target_name}
use any2helios_db.Record.{Value, ChangeRecord}
use any2helios_db.Replicat.{
  Action, done_with, go_on, Driver, Config, Kind, delete, full, partial, keymove, same_kind,
  Warning, skipped, Outcome, present, without, key_of, classify, runs_by_kind, keyed_table,
}

-- `buckets.setdefault(r.table, []).append(r)`
abbrev pub add_to_bucket :
    ChangeRecord → List (String × List ChangeRecord) → List (String × List ChangeRecord)
add_to_bucket r [] = (r.table, r ∷ []) ∷ []
add_to_bucket r ((t, rs) ∷ buckets) =
    let rest = add_to_bucket r buckets in
    if str_eq t r.table then (t, rs ++ r ∷ []) ∷ buckets else (t, rs) ∷ rest

unfoldable pub bucket :
    List ChangeRecord → List (String × List ChangeRecord) → List (String × List ChangeRecord)
bucket [] buckets = buckets
bucket (r ∷ rs) buckets = bucket rs (add_to_bucket r buckets)

-- `skipped[r.table] = skipped.get(r.table, 0) + 1`
abbrev pub count_skipped : String → List (String × ℕ) → List (String × ℕ)
count_skipped t [] = (t, 1) ∷ []
count_skipped t ((u, n) ∷ rest) =
    let more = count_skipped t rest in if str_eq u t then (u, suc n) ∷ rest else (u, n) ∷ more

abbrev pub skip_warnings : List (String × ℕ) → List Warning
skip_warnings [] = []
skip_warnings ((t, n) ∷ rest) = skipped t n ∷ skip_warnings rest

-- The run that `apply_ordered` has collected, with its table, its key, the name and the kind.
abbrev pub Run : Type 0
Run = Option ((Table × List String) × (String × Kind) × List ChangeRecord)

-- The record joins the run that it belongs to; `name` is the folded name of its table.
abbrev pub extends : Run → String → Kind → Bool
extends none name kind = false
extends (some (found, (name', kind'), run)) name kind = str_eq name name' && same_kind kind kind'

abbrev pub join_run : Run → ChangeRecord → Run
join_run none r = none
join_run (some (found, k, run)) r = some (found, k, run ++ r ∷ [])

module _ {S : Type 0} (D : Driver S) (cfg : Config) where
  -- `_ident` over a list of columns
  abbrev pub idents : List String → List String
  idents [] = []
  idents (c ∷ cs) = fold c cfg.preserve_case ∷ idents cs

  -- One round of `_apply_partial`.
  unfoldable pub apply_partial_one :
      String → List String → List String → List String → ChangeRecord → Action S ℕ
  apply_partial_one table key_cols pk cols r s =
      let here = present r.after cols in
      let non_key = without pk here in
      let row = key_of r.after non_key ++ key_of r.key pk in
      let updated =
        go_on (D.update_columns table key_cols (idents non_key) (row ∷ []) s) (λ matched s'.
          if matched == 0
          then D.upsert table key_cols (idents here) (key_of r.after here ∷ []) s'
          else (s', some matched)) in
      if length non_key == 0 then (s, some 0) else updated

  -- `_apply_partial`
  unfoldable pub apply_partial :
      String → List String → List String → List String → List ChangeRecord → Action S ℕ
  unfolding apply_partial_one
  apply_partial table key_cols pk cols [] s = (s, some 0)
  apply_partial table key_cols pk cols (r ∷ run) s =
      go_on (apply_partial_one table key_cols pk cols r s)
        (λ n s'. go_on (apply_partial table key_cols pk cols run s') (λ m. done_with (n + m)))

  abbrev pub first_of : {A : Type 0} → List A → List A
  first_of [] = []
  first_of (x ∷ xs) = x ∷ []

  -- `_refresh_or_probe`; there is a first key column, as the table has a key.
  unfoldable pub refresh_or_probe :
      String → List String → List String → ChangeRecord → List Value → Action S ℕ
  refresh_or_probe table key_cols [] r key_vals =
      D.update_columns table key_cols (first_of key_cols) ((first_of key_vals ++ key_vals) ∷ [])
  refresh_or_probe table key_cols (c ∷ cs) r key_vals =
      D.update_columns table key_cols (idents (c ∷ cs)) ((key_of r.after (c ∷ cs) ++ key_vals) ∷ [])

  -- One round of `_apply_keymove`.
  unfoldable pub apply_keymove_one :
      String → List String → List String → List String → ChangeRecord → Action S ℕ
  unfolding refresh_or_probe
  apply_keymove_one table key_cols pk cols r s =
      let here = present r.after cols in
      let non_key = without pk here in
      let old_key = key_of r.before_key pk in
      let new_key = key_of r.key pk in
      go_on (refresh_or_probe table key_cols non_key r old_key s) (λ n_old s1.
        if n_old == 0
        then go_on (refresh_or_probe table key_cols non_key r new_key s1) (λ n_new s2.
          if n_new == 0
          then go_on (D.upsert table key_cols (idents here) (key_of r.after here ∷ []) s2)
              (λ _. done_with 1)
          else (s2, some 1))
        else go_on (D.delete_keys table key_cols (new_key ∷ []) s1) (λ _ s2.
          go_on (D.update_columns table key_cols (idents pk) ((new_key ++ old_key) ∷ []) s2)
            (λ _. done_with 1)))

  -- `_apply_keymove`
  unfoldable pub apply_keymove :
      String → List String → List String → List String → List ChangeRecord → Action S ℕ
  unfolding apply_keymove_one
  apply_keymove table key_cols pk cols [] s = (s, some 0)
  apply_keymove table key_cols pk cols (r ∷ run) s =
      go_on (apply_keymove_one table key_cols pk cols r s)
        (λ n s'. go_on (apply_keymove table key_cols pk cols run s') (λ m. done_with (n + m)))

  abbrev pub keys_of : List ChangeRecord → List String → List (List Value)
  keys_of [] pk = []
  keys_of (r ∷ rs) pk = key_of r.key pk ∷ keys_of rs pk

  abbrev pub rows_of : List ChangeRecord → List String → List (List Value)
  rows_of [] cols = []
  rows_of (r ∷ rs) cols = key_of r.after cols ∷ rows_of rs cols

  -- `_apply_kind_run`, and the same cases inside `apply`, which has the last one too.
  unfoldable pub apply_kind_run : Table → List String → Kind → List ChangeRecord → Action S ℕ
  unfolding apply_partial apply_keymove
  apply_kind_run t pk delete run =
      D.delete_keys (target_name t cfg.preserve_case) (idents pk) (keys_of run pk)
  apply_kind_run t pk full run =
      D.upsert (target_name t cfg.preserve_case) (idents pk) (idents t.columns)
        (rows_of run t.columns)
  apply_kind_run t pk partial run =
      apply_partial (target_name t cfg.preserve_case) (idents pk) pk t.columns run
  apply_kind_run t pk keymove run =
      apply_keymove (target_name t cfg.preserve_case) (idents pk) pk t.columns run

  abbrev pub apply_runs : Table → List String → List (Kind × List ChangeRecord) → Action S ℕ
  apply_runs t pk [] s = (s, some 0)
  apply_runs t pk ((kind, run) ∷ runs) s =
      go_on (apply_kind_run t pk kind run s)
        (λ n s'. go_on (apply_runs t pk runs s') (λ m. done_with (n + m)))

  -- The loop of `apply` over the buckets.
  unfoldable pub apply_buckets : List (String × List ChangeRecord) → Action S Outcome
  unfolding apply_kind_run runs_by_kind keyed_table
  apply_buckets [] s = (s, some (0, []))
  apply_buckets ((name, recs) ∷ buckets) s = elim (keyed_table cfg name) [
    | none ↦
        go_on (apply_buckets buckets s)
          (λ out. done_with (out.0, skipped name (length recs) ∷ out.1))
    | some found ↦
        go_on (apply_runs found.0 found.1 (runs_by_kind cfg recs found.1 found.0.columns) s)
          (λ n s'. go_on (apply_buckets buckets s') (λ out. done_with (n + out.0, out.1)))
  ]

  -- `Replicat.apply`
  unfoldable pub apply : List ChangeRecord → Action S Outcome
  unfolding apply_buckets bucket
  apply records = apply_buckets (bucket records [])

  abbrev pub flush_run : Run → Action S ℕ
  flush_run none s = (s, some 0)
  flush_run (some (found, (name, kind), run)) s = apply_kind_run found.0 found.1 kind run s

  -- The loop of `apply_ordered`; `name_of` is `r.table.upper()`.
  unfoldable pub ordered_loop :
      (String → String) → List ChangeRecord → Run → ℕ → List (String × ℕ) → Action S Outcome
  unfolding apply_kind_run keyed_table classify
  ordered_loop name_of [] run applied skips s =
      go_on (flush_run run s) (λ n. done_with (applied + n, skip_warnings skips))
  ordered_loop name_of (r ∷ rs) run applied skips s = elim (keyed_table cfg r.table) [
    | none ↦
        go_on (flush_run run s)
          (λ n. ordered_loop name_of rs none (applied + n) (count_skipped r.table skips))
    | some found ↦
        let kind = classify cfg r found.1 found.0.columns in
        let name = name_of r.table in
        if same_kind kind keymove
        then (s, none)
        else if extends run name kind
        then ordered_loop name_of rs (join_run run r) applied skips s
        else go_on (flush_run run s)
            (λ n. ordered_loop name_of rs (some (found, (name, kind), r ∷ [])) (applied + n) skips)
  ]

  -- `Replicat.apply_ordered`
  unfoldable pub apply_ordered : (String → String) → List ChangeRecord → Action S Outcome
  unfolding ordered_loop
  apply_ordered name_of records = ordered_loop name_of records none 0 []
