-- ===== src/Replicat.antt =====
-- cdc/replicat.py: the class `Replicat`, over a target that it reaches through the operations of a
-- driver. The target, the dead letters and the apply cursor are one state, which the operations
-- take and return; `none` is an exception, which keeps what was done before it.
pub mod Apply
pub mod Barrier
pub mod Follows
pub mod Kinds
pub mod Txn
pub mod Reconcile
use any2helios_db.Prelude.{
  ℕ, zero, suc, ◌+◌, max, String, Bool, true, false, not, ◌&&◌, ◌||◌, Option, none, some, List, [],
  ◌∷◌, ◌++◌, map, ◌==◌, if◌then◌else◌, str_eq, length,
}
use any2helios_db.Ident.{fold}
use any2helios_db.Catalog.{Table, target_name}
use any2helios_db.Record.{Value, Dict, ChangeRecord}
use any2helios_db.Apply.{is_none}

abbrev pub Action : Type 0 → Type 0 → Type 0
Action S A = S → S × Option A

abbrev pub done_with : {S A : Type 0} → A → Action S A
done_with a s = (s, some a)

abbrev pub raise : {S A : Type 0} → Action S A
raise s = (s, none)

abbrev pub go_on : {S A B : Type 0} → S × Option A → (A → Action S B) → S × Option B
go_on (s, none) k = (s, none)
go_on (s, some a) k = k a s

-- `except`: the handler goes on from the state in which the exception left off.
abbrev pub rescue : {S A : Type 0} → S × Option A → Action S A → S × Option A
rescue (s, none) h = h s
rescue (s, some a) h = (s, some a)

-- The operations of `TargetDriver` in target/base.py that the replicat calls: table, key columns,
-- columns and rows. The number is that of the rows.
pub record Driver (S : Type 0) : Type 0 where
  pub upsert : String → List String → List String → List (List Value) → Action S ℕ
  pub delete_keys : String → List String → List (List Value) → Action S ℕ
  pub update_columns : String → List String → List String → List (List Value) → Action S ℕ
  pub begin : Action S Unit
  pub commit : Action S Unit
  pub rollback : Action S Unit
  pub ping : Action S Unit

-- `find` is `self._by_name.get(name.upper())`; `same` is `==` on the values of Python.
pub record Config : Type 0 where
  pub find : String → Option Table
  pub preserve_case : Bool
  pub same : Value → Value → Bool

pub data Kind : Type 0 where
  delete full partial keymove : Kind

abbrev pub same_kind : Kind → Kind → Bool
same_kind delete delete = true
same_kind full full = true
same_kind partial partial = true
same_kind keymove keymove = true
same_kind _ _ = false

-- The warnings of an apply; the texts name the table or the record.
pub data Warning : Type 0 where
  skipped : String → ℕ → Warning
  dead_lettered already_dead_lettered : ChangeRecord → Warning

abbrev pub Outcome : Type 0
Outcome = ℕ × List Warning

-- `d.get(c)`
abbrev pub get : Dict → String → Value
get [] c = Value.null
get ((k, v) ∷ d) c = let rest = get d c in if str_eq k c then v else rest

-- `c in d`
abbrev pub has : Dict → String → Bool
has [] c = false
has ((k, v) ∷ d) c = str_eq k c || has d c

abbrev pub all_in : Dict → List String → Bool
all_in d [] = true
all_in d (c ∷ cs) = has d c && all_in d cs

-- `[c for c in cols if c in r.after]`
abbrev pub present : Dict → List String → List String
present d [] = []
present d (c ∷ cs) = let rest = present d cs in if has d c then c ∷ rest else rest

abbrev pub member : String → List String → Bool
member c [] = false
member c (d ∷ ds) = str_eq c d || member c ds

-- `[c for c in present if c not in pk_set]`
abbrev pub without : List String → List String → List String
without pk [] = []
without pk (c ∷ cs) = let rest = without pk cs in if member c pk then rest else c ∷ rest

abbrev pub key_of : Dict → List String → List Value
key_of d cols = map (get d) cols

module _ (cfg : Config) where
  abbrev pub same_key : List Value → List Value → Bool
  same_key [] [] = true
  same_key (v ∷ vs) (w ∷ ws) = cfg.same v w && same_key vs ws
  same_key _ _ = false

  -- `r.before_key` is not empty and the two keys differ.
  abbrev pub moves_key : Dict → ChangeRecord → List String → Bool
  moves_key [] r pk = false
  moves_key (b ∷ before) r pk = not (same_key (key_of (b ∷ before) pk) (key_of r.key pk))

  -- `_classify`
  unfoldable pub classify : ChangeRecord → List String → List String → Kind
  classify r pk cols =
      if str_eq r.op "D"
      then delete
      else if moves_key r.before_key r pk
      then keymove
      else if all_in r.after cols
      then full
      else partial

  -- The loop of `_runs_by_kind`, with its `run` and `cur_kind`.
  unfoldable pub runs_loop :
      List String
      → List String
      → List ChangeRecord
      → Kind
      → List ChangeRecord
      → List (Kind × List ChangeRecord)
  unfolding classify
  runs_loop pk cols [] cur_kind [] = []
  runs_loop pk cols [] cur_kind (q ∷ run) = (cur_kind, q ∷ run) ∷ []
  runs_loop pk cols (r ∷ rs) cur_kind [] = runs_loop pk cols rs (classify r pk cols) (r ∷ [])
  runs_loop pk cols (r ∷ rs) cur_kind (q ∷ run) =
      let kind = classify r pk cols in
      let cut = runs_loop pk cols rs kind (r ∷ []) in
      let longer = runs_loop pk cols rs kind ((q ∷ run) ++ r ∷ []) in
      if same_kind kind cur_kind then longer else (cur_kind, q ∷ run) ∷ cut

  -- `_runs_by_kind`
  unfoldable pub runs_by_kind :
      List ChangeRecord → List String → List String → List (Kind × List ChangeRecord)
  unfolding runs_loop
  runs_by_kind recs pk cols = runs_loop pk cols recs delete []

  -- The table with its key, where it has one: else the record is skipped.
  unfoldable pub keyed_table : String → Option (Table × List String)
  keyed_table name = elim (cfg.find name) [
    | none ↦ none
    | some t ↦ elim t.primary_key [
      | none ↦ none
      | some pk ↦ elim pk [ [] ↦ none | ◌∷◌ c cs ↦ some (t, c ∷ cs) ]
    ]
  ]

  -- `Replicat._is_keymove`
  unfoldable pub is_keymove : ChangeRecord → Bool
  unfolding keyed_table classify
  is_keymove r = elim (keyed_table r.table) [
    | none ↦ false
    | some found ↦ same_kind (classify r found.1 found.0.columns) keymove
  ]
