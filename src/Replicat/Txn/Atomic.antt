-- ===== src/Replicat/Txn/Atomic.antt =====
-- A source transaction reaches the target whole or not at all.
use any2helios_db.Prelude.{
  ℕ, suc, String, ◌≡◌, refl, ◌∙◌, Bool, Option, none, some, List, [], ◌∷◌, ◌==◌, ◌⊎◌, inl, inr,
  Bool-cases,
}
use any2helios_db.Record.{ChangeRecord}
use any2helios_db.Replicat.{done_with, go_on, Driver, Config, Warning, Outcome}
use any2helios_db.Replicat.Barrier.{OnPoison, parked}
use any2helios_db.Replicat.Txn.{attempts, park, give_up, attempts_of, apply_txn}
use any2helios_db.Replicat.Txn.Isolated.{Isolated}
use any2helios_db.Replicat.Txn.Tried.{Committed, LeavesTarget, Tried, attempts-Tried}

module _ {S T : Type 0} (D : Driver S) (cfg : Config) (name_of : String → String) (durable : S → T)
    (InTxn : S → Type 0) (iso : Isolated D durable InTxn) (records : List ChangeRecord) where
  park-durable :
      (on_poison : OnPoison S) (offset : ℕ) (rs : List ChangeRecord) (s : S)
      → LeavesTarget durable (some on_poison)
      → durable (park D cfg name_of on_poison offset rs s).0 ≡ durable s
  unfolding park
  park-durable on_poison offset [] s leaves = refl
  park-durable on_poison offset (r ∷ rs) s leaves =
      go (on_poison r offset s) (leaves r offset s)
        (λ s'. park-durable on_poison (suc offset) rs s' leaves)
    where
      after :
          (newly : Bool) (s' : S) (m : S × Option (List Warning))
          → durable m.0 ≡ durable s'
          → durable (go_on m (λ more. done_with (parked r newly ∷ more))).0 ≡ durable s'
      after newly s' (s'', none) e = e
      after newly s' (s'', some more) e = e

      go :
          (m : S × Option Bool)
          → durable m.0 ≡ durable s
          → ((s' : S) → durable (park D cfg name_of on_poison (suc offset) rs s').0 ≡ durable s')
          → durable
              (go_on m (λ newly s1.
                go_on
                  (park D cfg name_of on_poison (suc offset) rs s1)
                  (λ more. done_with (parked r newly ∷ more)))).0
            ≡ durable s
      go (s', none) e ih = e
      go (s', some newly) e ih =
          after newly s' (park D cfg name_of on_poison (suc offset) rs s') (ih s') ∙ e

  give_up-durable :
      (retries : ℕ) (on_poison : Option (OnPoison S)) (base : ℕ) (s : S)
      → LeavesTarget durable on_poison
      → durable (give_up D cfg name_of retries on_poison base records s).0 ≡ durable s
  unfolding give_up
  give_up-durable retries none base s leaves = refl
  give_up-durable retries (some on_poison) base s leaves = elim (Bool-cases (retries == 0)) [
    | inl off ↦ rw off refl
    | inr poison ↦ rw poison (go (D.ping s) (iso.ping_keeps s))
  ]
    where
      after :
          (s' : S) (m : S × Option (List Warning))
          → durable m.0 ≡ durable s'
          → durable (go_on {B = Outcome} m (λ warnings. done_with (0, warnings))).0 ≡ durable s'
      after s' (s'', none) e = e
      after s' (s'', some more) e = e

      go :
          (m : S × Option Unit)
          → durable m.0 ≡ durable s
          → durable
              (go_on {B = Outcome} m (λ _ s1.
                go_on
                  (park D cfg name_of on_poison (suc base) records s1)
                  (λ warnings. done_with (0, warnings)))).0
            ≡ durable s
      go (s', none) e = e
      go (s', some u) e =
          after s' (park D cfg name_of on_poison (suc base) records s')
            (park-durable on_poison (suc base) records s' leaves)
          ∙ e

-- A result that counts no record as applied, or an exception.
abbrev pub CountsNone : {S : Type 0} → S × Option Outcome → Type 0
CountsNone (s, none) = Unit
CountsNone (s, some out) = out.0 ≡ 0

give_up-CountsNone :
    {S : Type 0} (D : Driver S) (cfg : Config) (name_of : String → String) (retries : ℕ)
    (on_poison : Option (OnPoison S)) (base : ℕ) (records : List ChangeRecord) (s : S)
    → CountsNone (give_up D cfg name_of retries on_poison base records s)
unfolding give_up
give_up-CountsNone D cfg name_of retries none base records s = tt
give_up-CountsNone {S} D cfg name_of retries (some on_poison) base records s =
    elim (Bool-cases (retries == 0)) [
      | inl off ↦ rw off tt
      | inr poison ↦ rw poison (go (D.ping s))
    ]
  where
    after :
        (m : S × Option (List Warning))
        → CountsNone (go_on {B = Outcome} m (λ warnings. done_with (0, warnings)))
    after (s'', none) = tt
    after (s'', some more) = refl

    go :
        (m : S × Option Unit)
        → CountsNone (
            go_on {B = Outcome} m (λ _ s1.
              go_on
                (park D cfg name_of on_poison (suc base) records s1)
                (λ warnings. done_with (0, warnings))))
    go (s', none) = tt
    go (s', some u) = after (park D cfg name_of on_poison (suc base) records s')

-- A source transaction reaches the target whole or not at all. On a target with transactions, and
-- with a callback that leaves the target alone, `apply_txn` ends in one of two ways: what others see
-- of the target is as before and no record counts as applied, or all of the records were applied in
-- order from a state that looked as before, in a transaction that was committed, and its outcome is
-- returned.
pub apply_txn-all_or_nothing :
    {S T : Type 0} (D : Driver S) (cfg : Config) (name_of : String → String) (durable : S → T)
    (InTxn : S → Type 0) (records : List ChangeRecord) (retries : ℕ)
    (on_poison : Option (OnPoison S)) (base : ℕ) (s : S)
    → Isolated D durable InTxn
    → LeavesTarget durable on_poison
    → (((durable (apply_txn D cfg name_of records retries on_poison base s).0 ≡ durable s)
          × CountsNone (apply_txn D cfg name_of records retries on_poison base s))
        ⊎ ((s2 : S) × (out : Outcome) × (apply_txn D cfg name_of records retries on_poison base s
              ≡ (s2, some out))
            × Committed D cfg name_of durable records s s2 out))
unfolding apply_txn
apply_txn-all_or_nothing {S} {T} D cfg name_of durable InTxn records retries on_poison base s iso
      leaves =
    go (attempts D cfg name_of (attempts_of D cfg name_of retries on_poison) records s) (
      attempts-Tried D cfg name_of durable InTxn iso records
        (attempts_of D cfg name_of retries on_poison) s)
  where
    rest : Option Outcome → S → S × Option Outcome
    rest = λ tried s1. elim tried [
      | some out ↦ (s1, some out)
      | none ↦ give_up D cfg name_of retries on_poison base records s1
    ]

    go :
        (m : S × Option (Option Outcome))
        → Tried D cfg name_of durable InTxn iso records s m
        → ((durable (go_on m rest).0 ≡ durable s) × CountsNone (go_on m rest))
          ⊎ ((s2 : S) × (out : Outcome) × (go_on m rest ≡ (s2, some out))
              × Committed D cfg name_of durable records s s2 out)
    go (s1, none) e = inl (e, tt)
    go (s1, some none) e = inl (
      give_up-durable D cfg name_of durable InTxn iso records retries on_poison base s1 leaves ∙ e,
      give_up-CountsNone D cfg name_of retries on_poison base records s1,
    )
    go (s1, some (some out)) c = inr (s1, out, refl, c)
