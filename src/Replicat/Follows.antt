-- ===== src/Replicat/Follows.antt =====
-- A relation between the state before and after, carried through all that `Replicat` does: what the
-- operations of the driver and the callbacks respect, every apply respects, on every path.
pub mod Ends
pub mod Session
use any2helios_db.Prelude.{
  ℕ, ◌+◌, String, Bool, true, false, Option, none, some, List, [], ◌∷◌, if◌then◌else◌, inl, inr,
  Option-cases,
}
use any2helios_db.Catalog.{Table}
use any2helios_db.Record.{Value, ChangeRecord}
use any2helios_db.Replicat.{
  Action, go_on, rescue, Driver, Config, Kind, delete, full, partial, keymove, classify,
  keyed_table, runs_by_kind,
}
use any2helios_db.Replicat.Apply.{
  apply_partial_one, apply_partial, refresh_or_probe, apply_keymove_one, apply_keymove,
  apply_kind_run, apply_runs, apply_buckets, bucket, apply, Run, flush_run, join_run, count_skipped,
  ordered_loop, apply_ordered,
}

-- The relation holds of two states with nothing between them and of two steps in a row.
pub record Rule {S : Type 0} (R : S → S → Type 0) : Type 0 where
  pub stay : (s : S) → R s s
  pub chain : (a b c : S) → R a b → R b c → R a c

-- From `s`, the action leads to a state that the relation allows, whether it raises or not.
pub record Follows {S A : Type 0} (R : S → S → Type 0) (s : S) (m : S × Option A) : Type 0 where
  pub leads : R s m.0

-- The operations that write rows respect the relation.
pub record Writes {S : Type 0} (D : Driver S) (R : S → S → Type 0) : Type 0 where
  pub upserts :
      (t : String) (ks cs : List String) (rows : List (List Value)) (s : S)
      → Follows R s (D.upsert t ks cs rows s)
  pub deletes :
      (t : String) (ks : List String) (rows : List (List Value)) (s : S)
      → Follows R s (D.delete_keys t ks rows s)
  pub updates :
      (t : String) (ks cs : List String) (rows : List (List Value)) (s : S)
      → Follows R s (D.update_columns t ks cs rows s)

module _ {S : Type 0} (R : S → S → Type 0) (rule : Rule R) where
  pub here-Follows : {A : Type 0} (s : S) (o : Option A) → Follows R s (s, o)
  here-Follows s o = record { leads = rule.stay s }

  pub go_on-Follows :
      {A B : Type 0} (s : S) (m : S × Option A) (k : A → Action S B)
      → Follows R s m
      → ((a : A) (s' : S) → Follows R s' (k a s'))
      → Follows R s (go_on m k)
  go_on-Follows s (s', none) k h next = record { leads = h.leads }
  go_on-Follows s (s', some a) k h next = record {
    leads = rule.chain s s' (k a s').0 h.leads (next a s').leads;
  }

  pub rescue-Follows :
      {A : Type 0} (s : S) (m : S × Option A) (k : Action S A)
      → Follows R s m
      → ((s' : S) → Follows R s' (k s'))
      → Follows R s (rescue m k)
  rescue-Follows s (s', none) k h next = record {
    leads = rule.chain s s' (k s').0 h.leads (next s').leads;
  }
  rescue-Follows s (s', some a) k h next = record { leads = h.leads }

  pub if-Follows :
      {A : Type 0} (s : S) (b : Bool) (m n : S × Option A)
      → Follows R s m
      → Follows R s n
      → Follows R s (if b then m else n)
  if-Follows s true m n h k = h
  if-Follows s false m n h k = k

module _ {S : Type 0} (D : Driver S) (cfg : Config) (R : S → S → Type 0) (rule : Rule R)
    (writes : Writes D R) where
  open writes use {upserts, deletes, updates}

  done-Follows :
      {A B : Type 0} (s : S) (m : S × Option A) (f : A → Option B)
      → Follows R s m
      → Follows R s (go_on m (λ a s'. (s', f a)))
  done-Follows s m f h = go_on-Follows R rule s m _ h (λ a s'. here-Follows R rule s' (f a))

  apply_partial_one-Follows :
      (t : String) (ks pk cols : List String) (r : ChangeRecord) (s : S)
      → Follows R s (apply_partial_one D cfg t ks pk cols r s)
  unfolding apply_partial_one
  apply_partial_one-Follows t ks pk cols r s = if-Follows R rule s _ _ _ (here-Follows R rule s _) (
      go_on-Follows R rule s _ _ (updates t ks _ _ s)
        (λ n s'. if-Follows R rule s' _ _ _ (upserts t ks _ _ s') (here-Follows R rule s' _)))

  apply_partial-Follows :
      (t : String) (ks pk cols : List String) (run : List ChangeRecord) (s : S)
      → Follows R s (apply_partial D cfg t ks pk cols run s)
  unfolding apply_partial
  apply_partial-Follows t ks pk cols [] s = here-Follows R rule s _
  apply_partial-Follows t ks pk cols (r ∷ run) s =
      go_on-Follows R rule s _ _ (apply_partial_one-Follows t ks pk cols r s)
        (λ n s'. done-Follows s' _ _ (apply_partial-Follows t ks pk cols run s'))

  refresh_or_probe-Follows :
      (t : String) (ks non_key : List String) (r : ChangeRecord) (vals : List Value) (s : S)
      → Follows R s (refresh_or_probe D cfg t ks non_key r vals s)
  unfolding refresh_or_probe
  refresh_or_probe-Follows t ks [] r vals s = updates t ks _ _ s
  refresh_or_probe-Follows t ks (c ∷ cs) r vals s = updates t ks _ _ s

  apply_keymove_one-Follows :
      (t : String) (ks pk cols : List String) (r : ChangeRecord) (s : S)
      → Follows R s (apply_keymove_one D cfg t ks pk cols r s)
  unfolding apply_keymove_one
  apply_keymove_one-Follows t ks pk cols r s =
      go_on-Follows R rule s _ _ (refresh_or_probe-Follows t ks _ r _ s) (λ n s1.
        if-Follows R rule s1 _ _ _
          (go_on-Follows R rule s1 _ _ (refresh_or_probe-Follows t ks _ r _ s1) (λ m s2.
            if-Follows R rule s2 _ _ _ (done-Follows s2 _ _ (upserts t ks _ _ s2))
              (here-Follows R rule s2 _)))
          (go_on-Follows R rule s1 _ _ (deletes t ks _ s1)
            (λ _ s2. done-Follows s2 _ _ (updates t ks _ _ s2))))

  apply_keymove-Follows :
      (t : String) (ks pk cols : List String) (run : List ChangeRecord) (s : S)
      → Follows R s (apply_keymove D cfg t ks pk cols run s)
  unfolding apply_keymove
  apply_keymove-Follows t ks pk cols [] s = here-Follows R rule s _
  apply_keymove-Follows t ks pk cols (r ∷ run) s =
      go_on-Follows R rule s _ _ (apply_keymove_one-Follows t ks pk cols r s)
        (λ n s'. done-Follows s' _ _ (apply_keymove-Follows t ks pk cols run s'))

  apply_kind_run-Follows :
      (t : Table) (pk : List String) (kind : Kind) (run : List ChangeRecord) (s : S)
      → Follows R s (apply_kind_run D cfg t pk kind run s)
  unfolding apply_kind_run
  apply_kind_run-Follows t pk delete run s = deletes _ _ _ s
  apply_kind_run-Follows t pk full run s = upserts _ _ _ _ s
  apply_kind_run-Follows t pk partial run s = apply_partial-Follows _ _ pk t.columns run s
  apply_kind_run-Follows t pk keymove run s = apply_keymove-Follows _ _ pk t.columns run s

  flush_run-Follows : (run : Run) (s : S) → Follows R s (flush_run D cfg run s)
  flush_run-Follows none s = here-Follows R rule s _
  flush_run-Follows (some (found, (name, kind), run)) s =
      apply_kind_run-Follows found.0 found.1 kind run s

  ordered_loop-Follows :
      (name_of : String → String) (rs : List ChangeRecord) (run : Run) (applied : ℕ)
      (skips : List (String × ℕ)) (s : S)
      → Follows R s (ordered_loop D cfg name_of rs run applied skips s)
  unfolding ordered_loop
  ordered_loop-Follows name_of [] run applied skips s = done-Follows s _ _ (flush_run-Follows run s)
  ordered_loop-Follows name_of (r ∷ rs) run applied skips s =
      elim (Option-cases (keyed_table cfg r.table)) [
        | inl absent ↦
            rw (absent, ordered_loop)
              (go_on-Follows R rule s _ _ (flush_run-Follows run s) (λ n s'.
                ordered_loop-Follows name_of rs none (applied + n) (count_skipped r.table skips)
                  s'))
        | inr (found, at) ↦
            rw (at, ordered_loop)
              (if-Follows R rule s _ _ _ (here-Follows R rule s _) (
                if-Follows R rule s _ _ _
                  (ordered_loop-Follows name_of rs (join_run run r) applied skips s)
                  (go_on-Follows R rule s _ _ (flush_run-Follows run s) (λ n s'.
                    ordered_loop-Follows name_of rs
                      (some
                        (found, (name_of r.table, classify cfg r found.1 found.0.columns), r ∷ []))
                      (applied + n) skips s'))))
      ]

  pub apply_ordered-Follows :
      (name_of : String → String) (records : List ChangeRecord) (s : S)
      → Follows R s (apply_ordered D cfg name_of records s)
  unfolding apply_ordered
  apply_ordered-Follows name_of records s = ordered_loop-Follows name_of records none 0 [] s

  apply_runs-Follows :
      (t : Table) (pk : List String) (runs : List (Kind × List ChangeRecord)) (s : S)
      → Follows R s (apply_runs D cfg t pk runs s)
  apply_runs-Follows t pk [] s = here-Follows R rule s _
  apply_runs-Follows t pk ((kind, run) ∷ runs) s =
      go_on-Follows R rule s _ _ (apply_kind_run-Follows t pk kind run s)
        (λ n s'. done-Follows s' _ _ (apply_runs-Follows t pk runs s'))

  apply_buckets-Follows :
      (buckets : List (String × List ChangeRecord)) (s : S)
      → Follows R s (apply_buckets D cfg buckets s)
  unfolding apply_buckets
  apply_buckets-Follows [] s = here-Follows R rule s _
  apply_buckets-Follows ((name, recs) ∷ buckets) s = elim (Option-cases (keyed_table cfg name)) [
    | inl absent ↦ rw (absent, apply_buckets) (done-Follows s _ _ (apply_buckets-Follows buckets s))
    | inr (found, at) ↦
        rw (at, apply_buckets)
          (go_on-Follows R rule s _ _
            (apply_runs-Follows found.0 found.1 (runs_by_kind cfg recs found.1 found.0.columns) s)
            (λ n s'. done-Follows s' _ _ (apply_buckets-Follows buckets s')))
  ]

  pub apply-Follows : (records : List ChangeRecord) (s : S) → Follows R s (apply D cfg records s)
  unfolding apply
  apply-Follows records s = apply_buckets-Follows (bucket records []) s
