-- ===== src/Replicat/Reconcile.antt =====
-- `Replicat.reconcile_deletes`: the keys of the target that the source no longer has are deleted, in
-- batches.
pub mod Batches
use any2helios_db.Prelude.{
  ℕ, ◌+◌, String, Bool, true, false, not, ◌&&◌, ◌||◌, Option, none, some, List, [], ◌∷◌, ◌++◌, leb,
  ◌==◌, if◌then◌else◌, length,
}
use any2helios_db.Catalog.{Table, target_name}
use any2helios_db.Record.{Value}
use any2helios_db.Replicat.{Action, Driver, Config, same_key}
use any2helios_db.Replicat.Apply.{idents}

abbrev pub Key : Type 0
Key = List Value

-- What the loop over the keys has done: the number of the deleted rows, and whether an exception
-- ended it. The rows that were deleted before an exception stay counted.
abbrev pub Progress : Type 0
Progress = ℕ × Bool

-- `adapter.stream_rows` and `target.select_keys`: table and key columns.
pub record Keys (S : Type 0) : Type 0 where
  pub stream_rows : Table → List String → Option (List Key)
  pub select_keys : String → List String → Action S (List Key)

module _ {S : Type 0} (D : Driver S) (cfg : Config) where
  -- `tk in src_keys`
  unfoldable pub has_key : List Key → Key → Bool
  has_key [] k = false
  has_key (q ∷ keys) k = same_key cfg q k || has_key keys k

  module _ (table : String) (key_idents : List String) where
    -- `deleted += n`, and what comes after it.
    abbrev pub after_delete : S × Option ℕ → ℕ → (ℕ → S → S × Progress) → S × Progress
    after_delete (s, none) deleted k = (s, (deleted, false))
    after_delete (s, some n) deleted k = k (deleted + n) s

    -- `deleted += self.target.delete_keys(...)`
    abbrev pub delete_batch : List Key → ℕ → (ℕ → S → S × Progress) → S → S × Progress
    delete_batch surplus deleted k s =
        after_delete (D.delete_keys table key_idents surplus s) deleted k

    -- `if surplus:` at the end
    abbrev pub delete_rest : List Key → ℕ → S → S × Progress
    delete_rest [] deleted s = (s, (deleted, true))
    delete_rest (k ∷ surplus) deleted s =
        delete_batch (k ∷ surplus) deleted (λ n s'. (s', (n, true))) s

    -- The loop over the keys of the target, with its `surplus`.
    unfoldable pub surplus_loop : List Key → ℕ → List Key → List Key → ℕ → S → S × Progress
    unfolding has_key
    surplus_loop src_keys chunk_size [] surplus deleted s = delete_rest surplus deleted s
    surplus_loop src_keys chunk_size (k ∷ keys) surplus deleted s =
        let grown = surplus ++ k ∷ [] in
        let kept = surplus_loop src_keys chunk_size keys surplus deleted s in
        let cut = delete_batch grown deleted (surplus_loop src_keys chunk_size keys []) s in
        let more = surplus_loop src_keys chunk_size keys grown deleted s in
        if has_key src_keys k
        then kept
        else if not (chunk_size == 0) && leb chunk_size (length grown)
        then cut
        else more

  abbrev pub loop_over : S × Option (List Key) → (List Key → S → S × Progress) → S × Progress
  loop_over (s, none) k = (s, (0, false))
  loop_over (s, some keys) k = k keys s

  -- The body of the `try` for a table with its key columns.
  unfoldable pub reconcile_table : Keys S → ℕ → Table → List String → S → S × Progress
  unfolding surplus_loop
  reconcile_table K chunk_size t pk s = elim (K.stream_rows t pk) [
    | none ↦ (s, (0, false))
    | some src_keys ↦
        let table = target_name t cfg.preserve_case in
        loop_over (K.select_keys table (idents D cfg pk) s)
          (λ keys. surplus_loop table (idents D cfg pk) src_keys chunk_size keys [] 0)
  ]

  -- The names of the tables whose reconciliation failed are the warnings.
  abbrev pub count_table : Table → Progress → ℕ × List String → ℕ × List String
  count_table t (n, ok) (deleted, warnings) =
      (n + deleted, if ok then warnings else t.name ∷ warnings)

  abbrev pub after_table :
      Table → S × Progress → (S → S × (ℕ × List String)) → S × (ℕ × List String)
  after_table t (s, p) rest = let m = rest s in (m.0, count_table t p m.1)

  abbrev pub key_columns : Table → List String
  key_columns t = elim t.primary_key [ none ↦ [] | some pk ↦ pk ]

  -- `reconcile_deletes` over `self._by_name.values()`; it does not raise.
  unfoldable pub reconcile_deletes : Keys S → ℕ → List Table → S → S × (ℕ × List String)
  unfolding reconcile_table
  reconcile_deletes K chunk_size [] s = (s, (0, []))
  reconcile_deletes K chunk_size (t ∷ ts) s =
      let skipped = reconcile_deletes K chunk_size ts s in
      elim (key_columns t) [
        | [] ↦ skipped
        | ◌∷◌ c cs ↦
            after_table t (reconcile_table K chunk_size t (c ∷ cs) s)
              (reconcile_deletes K chunk_size ts)
      ]
