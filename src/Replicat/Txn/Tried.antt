-- ===== src/Replicat/Txn/Tried.antt =====
-- The attempts at a source transaction: a commit, or nothing that others see.
use any2helios_db.Prelude.{
  ℕ, zero, suc, String, ◌≡◌, refl, sym, ap, subst, ◌∙◌, Option, none, some, List,
}
use any2helios_db.Record.{ChangeRecord}
use any2helios_db.Replicat.{done_with, go_on, rescue, Driver, Config, Outcome}
use any2helios_db.Replicat.Apply.{apply_ordered}
use any2helios_db.Replicat.Barrier.{OnPoison}
use any2helios_db.Replicat.Txn.{attempt, rolled_back, attempts}
use any2helios_db.Replicat.Txn.Isolated.{Isolated, apply_ordered-Keeps}

-- The records were applied in one transaction, which was committed and left the state `s2`.
abbrev pub Committed :
    {S T : Type 0}
    → Driver S
    → Config
    → (String → String)
    → (S → T)
    → List ChangeRecord
    → S
    → S
    → Outcome
    → Type 0
Committed {S = S} D cfg name_of durable records s s2 out =
    (s0 : S) × (s1 : S) × (durable s0 ≡ durable s)
    × (apply_ordered D cfg name_of records s0 ≡ (s1, some out))
    × (D.commit s1 ≡ (s2, some tt))

-- The callback writes its dead letters elsewhere than in the target.
abbrev pub LeavesTarget : {S T : Type 0} → (S → T) → Option (OnPoison S) → Type 0
LeavesTarget durable none = Unit
LeavesTarget {S = S} durable (some on_poison) =
    (r : ChangeRecord) (n : ℕ) (s : S) → durable (on_poison r n s).0 ≡ durable s

module _ {S T : Type 0} (D : Driver S) (cfg : Config) (name_of : String → String) (durable : S → T)
    (InTxn : S → Type 0) (iso : Isolated D durable InTxn) (records : List ChangeRecord) where
  -- What the attempts leave: a commit, or what others see as it was.
  abbrev pub Tried : S → S × Option (Option Outcome) → Type 0
  Tried s (s', none) = durable s' ≡ durable s
  Tried s (s', some none) = durable s' ≡ durable s
  Tried s (s', some (some out)) = Committed D cfg name_of durable records s s' out

  pub Tried-from :
      (s0 s : S) (m : S × Option (Option Outcome)) → durable s0 ≡ durable s → Tried s0 m → Tried s m
  Tried-from s0 s (s', none) e h = h ∙ e
  Tried-from s0 s (s', some none) e h = h ∙ e
  Tried-from s0 s (s', some (some out)) e (a, b, same, applied, committed) =
      (a, b, same ∙ e, applied, committed)

  abbrev pub one_try : S → S × Option (Option Outcome)
  one_try s =
      rescue (go_on (attempt D cfg name_of records s) (λ out. done_with (some out)))
        (rolled_back D cfg name_of)

  pub rolled_back-Tried :
      (s s' : S) → durable s' ≡ durable s → Tried s (rolled_back D cfg name_of s')
  unfolding rolled_back
  rolled_back-Tried s s' e = go (D.rollback s') refl
    where
      go :
          (m : S × Option Unit)
          → D.rollback s' ≡ m
          → Tried s (rescue (go_on m (λ _. done_with none)) (done_with none))
      go (s'', none) at =
          ap (λ (p : S × Option Unit). durable p.0) (sym at) ∙ iso.rollback_keeps s' ∙ e
      go (s'', some u) at =
          ap (λ (p : S × Option Unit). durable p.0) (sym at) ∙ iso.rollback_keeps s' ∙ e

  pub one_try-Tried : (s : S) → InTxn s → Tried s (one_try s)
  unfolding attempt
  one_try-Tried s open_txn = applied (apply_ordered D cfg name_of records s) refl
    where
      finished :
          (s1 : S) (out : Outcome) (m : S × Option Unit)
          → InTxn s1
          → durable s1 ≡ durable s
          → apply_ordered D cfg name_of records s ≡ (s1, some out)
          → D.commit s1 ≡ m
          → Tried s (
              rescue
                (go_on (go_on m (λ _. done_with out)) (λ o. done_with (some o)))
                (rolled_back D cfg name_of))
      finished s1 out (s2, none) inside same e at = rolled_back-Tried s s2 (
          ap (λ (p : S × Option Unit). durable p.0) (sym at)
          ∙ iso.failed_commit_keeps s1 inside (ap (λ (p : S × Option Unit). p.1) at)
          ∙ same)
      finished s1 out (s2, some u) inside same e at = (s, s1, refl, e, at)

      applied :
          (m : S × Option Outcome)
          → apply_ordered D cfg name_of records s ≡ m
          → Tried s (
              rescue
                (go_on
                  (go_on m (λ out s'. go_on (D.commit s') (λ _. done_with out)))
                  (λ o. done_with (some o)))
                (rolled_back D cfg name_of))
      applied (s1, none) e = rolled_back-Tried s s1 (
          ap (λ (p : S × Option Outcome). durable p.0) (sym e)
          ∙ (apply_ordered-Keeps D cfg durable InTxn iso name_of records s open_txn).same)
      applied (s1, some out) e =
          let kept = apply_ordered-Keeps D cfg durable InTxn iso name_of records s open_txn in
          finished s1 out (D.commit s1)
            (subst (λ (p : S × Option Outcome). InTxn p.0) e kept.inside)
            (ap (λ (p : S × Option Outcome). durable p.0) (sym e) ∙ kept.same) e refl

  pub attempts-Tried : (n : ℕ) (s : S) → Tried s (attempts D cfg name_of n records s)
  unfolding attempts
  attempts-Tried zero s = refl
  attempts-Tried (suc n) s = begun (D.begin s) refl (λ s'. attempts-Tried n s')
    where
      again :
          (s1 : S) (m : S × Option (Option Outcome))
          → durable s1 ≡ durable s
          → Tried s1 m
          → ((s' : S) → Tried s' (attempts D cfg name_of n records s'))
          → Tried s (
              go_on m (λ tried s2. elim tried [
                | some out ↦ (s2, some (some out))
                | none ↦ attempts D cfg name_of n records s2
              ]))
      again s1 (s2, none) e h ih = h ∙ e
      again s1 (s2, some none) e h ih =
          Tried-from s2 s (attempts D cfg name_of n records s2) (h ∙ e) (ih s2)
      again s1 (s2, some (some out)) e h ih = Tried-from s1 s (s2, some (some out)) e h

      begun :
          (m : S × Option Unit)
          → D.begin s ≡ m
          → ((s' : S) → Tried s' (attempts D cfg name_of n records s'))
          → Tried s (
              go_on m (λ _ s1. go_on (one_try s1) (λ tried s2. elim tried [
                | some out ↦ (s2, some (some out))
                | none ↦ attempts D cfg name_of n records s2
              ])))
      begun (s1, none) e ih = ap (λ (p : S × Option Unit). durable p.0) (sym e) ∙ iso.begin_keeps s
      begun (s1, some u) e ih =
          again s1 (one_try s1)
            (ap (λ (p : S × Option Unit). durable p.0) (sym e) ∙ iso.begin_keeps s)
            (one_try-Tried s1 (
              subst (λ (p : S × Option Unit). InTxn p.0) e
                (iso.begin_opens s (ap (λ (p : S × Option Unit). p.1) e))))
            ih
