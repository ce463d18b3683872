-- ===== src/Replicat/Txn/Isolated.antt =====
-- Within a transaction of the target, applying records changes nothing that others see.
use any2helios_db.Prelude.{String, ◌≡◌, refl, ◌∙◌, Option, none, some, List}
use any2helios_db.Record.{Value, ChangeRecord}
use any2helios_db.Replicat.{Driver, Config}
use any2helios_db.Replicat.Follows.{Rule, Writes, apply_ordered-Follows}
use any2helios_db.Replicat.Apply.{apply_ordered}

-- What a target with transactions documents: `durable` is what others see, and between `begin` and
-- `commit` it does not change; a commit that fails is rolled back.
pub record Isolated {S T : Type 0} (D : Driver S) (durable : S → T) (InTxn : S → Type 0)
    : Type 0 where
  pub begin_keeps : (s : S) → durable (D.begin s).0 ≡ durable s
  pub begin_opens : (s : S) → (D.begin s).1 ≡ some tt → InTxn (D.begin s).0
  pub upsert_keeps :
      (t : String) (ks cs : List String) (rows : List (List Value)) (s : S)
      → InTxn s
      → InTxn (D.upsert t ks cs rows s).0 × (durable (D.upsert t ks cs rows s).0 ≡ durable s)
  pub delete_keeps :
      (t : String) (ks : List String) (rows : List (List Value)) (s : S)
      → InTxn s
      → InTxn (D.delete_keys t ks rows s).0 × (durable (D.delete_keys t ks rows s).0 ≡ durable s)
  pub update_keeps :
      (t : String) (ks cs : List String) (rows : List (List Value)) (s : S)
      → InTxn s
      → InTxn (D.update_columns t ks cs rows s).0
        × (durable (D.update_columns t ks cs rows s).0 ≡ durable s)
  pub failed_commit_keeps :
      (s : S) → InTxn s → (D.commit s).1 ≡ none → durable (D.commit s).0 ≡ durable s
  pub rollback_keeps : (s : S) → durable (D.rollback s).0 ≡ durable s
  pub ping_keeps : (s : S) → durable (D.ping s).0 ≡ durable s

-- The result leaves the transaction open and what others see as it was before.
pub record Keeps {S T A : Type 0} (durable : S → T) (InTxn : S → Type 0) (s : S) (m : S × Option A)
    : Type 0 where
  pub inside : InTxn m.0
  pub same : durable m.0 ≡ durable s

-- From a state inside a transaction, to another inside it that looks the same to others.
abbrev Hides : {S T : Type 0} → (S → T) → (S → Type 0) → S → S → Type 0
Hides durable InTxn s s' = InTxn s → InTxn s' × (durable s' ≡ durable s)

Hides-Rule : {S T : Type 0} (durable : S → T) (InTxn : S → Type 0) → Rule (Hides durable InTxn)
Hides-Rule durable InTxn = record {
  stay = λ s h. (h, refl);
  chain = λ a b c p q h. let mid = p h in let end = q mid.0 in (end.0, end.1 ∙ mid.1);
}

module _ {S T : Type 0} (D : Driver S) (cfg : Config) (durable : S → T) (InTxn : S → Type 0)
    (iso : Isolated D durable InTxn) where
  hidden-Writes : Writes D (Hides durable InTxn)
  hidden-Writes = record {
    upserts = λ t ks cs rows s. record { leads = iso.upsert_keeps t ks cs rows s };
    deletes = λ t ks rows s. record { leads = iso.delete_keeps t ks rows s };
    updates = λ t ks cs rows s. record { leads = iso.update_keeps t ks cs rows s };
  }

  pub apply_ordered-Keeps :
      (name_of : String → String) (records : List ChangeRecord) (s : S)
      → InTxn s
      → Keeps durable InTxn s (apply_ordered D cfg name_of records s)
  apply_ordered-Keeps name_of records s h =
      let rule = Hides-Rule durable InTxn in
      let run =
        apply_ordered-Follows D cfg (Hides durable InTxn) rule hidden-Writes name_of records s in
      let k = run.leads h in record { inside = k.0; same = k.1 }
