-- ===== src/Replicat/Txn.antt =====
-- `Replicat.apply_txn`: a source transaction in one transaction of the target.
pub mod Tried
pub mod Atomic
pub mod Isolated
use any2helios_db.Prelude.{
  ℕ, zero, suc, ◌+◌, max, String, Bool, true, false, not, Option, none, some, List, [], ◌∷◌, ◌++◌,
  ◌==◌, if◌then◌else◌, length,
}
use any2helios_db.Record.{ChangeRecord}
use any2helios_db.Replicat.{
  Action, done_with, raise, go_on, rescue, Driver, Config, Warning, Outcome,
}
use any2helios_db.Replicat.Apply.{apply_ordered}
use any2helios_db.Replicat.Barrier.{OnPoison, parked}

module _ {S : Type 0} (D : Driver S) (cfg : Config) (name_of : String → String) where
  -- `a, w = self.apply_ordered(records); self.target.commit(); return a, w`
  unfoldable pub attempt : List ChangeRecord → Action S Outcome
  attempt records s =
      go_on (apply_ordered D cfg name_of records s)
        (λ out s'. go_on (D.commit s') (λ _. done_with out))

  -- A rollback that fails is passed over.
  unfoldable pub rolled_back : Action S (Option Outcome)
  rolled_back s = rescue (go_on (D.rollback s) (λ _. done_with none)) (done_with none)

  -- The attempts at the whole transaction: `none` when all of them failed. `begin` is outside the
  -- `try`.
  unfoldable pub attempts : ℕ → List ChangeRecord → Action S (Option Outcome)
  unfolding attempt rolled_back
  attempts zero records s = (s, some none)
  attempts (suc n) records s = go_on (D.begin s) (λ _ s1.
      go_on (rescue (go_on (attempt records s1) (λ out. done_with (some out))) rolled_back)
        (λ tried s2. elim tried [
          | some out ↦ (s2, some (some out))
          | none ↦ attempts n records s2
        ]))

  -- The records of a transaction that is given up, from that offset on.
  unfoldable pub park : OnPoison S → ℕ → List ChangeRecord → Action S (List Warning)
  park on_poison offset [] s = (s, some [])
  park on_poison offset (r ∷ rs) s = go_on (on_poison r offset s) (λ newly s1.
      go_on (park on_poison (suc offset) rs s1) (λ more. done_with (parked r newly ∷ more)))

  -- What follows the attempts: without the poison policy the last error is raised again.
  unfoldable pub give_up : ℕ → Option (OnPoison S) → ℕ → List ChangeRecord → Action S Outcome
  unfolding park
  give_up retries none base records s = (s, none)
  give_up retries (some on_poison) base records s =
      let dead = go_on (D.ping s) (λ _ s1.
        go_on (park on_poison (suc base) records s1) (λ warnings. done_with (0, warnings))) in
      if retries == 0 then (s, none) else dead

  abbrev pub attempts_of : ℕ → Option (OnPoison S) → ℕ
  attempts_of retries none = 1
  attempts_of retries (some on_poison) = max 1 retries

  -- `apply_txn`
  unfoldable pub apply_txn : List ChangeRecord → ℕ → Option (OnPoison S) → ℕ → Action S Outcome
  unfolding attempts give_up
  apply_txn records retries on_poison base s =
      go_on (attempts (attempts_of retries on_poison) records s) (λ tried s1. elim tried [
        | some out ↦ (s1, some out)
        | none ↦ give_up retries on_poison base records s1
      ])
