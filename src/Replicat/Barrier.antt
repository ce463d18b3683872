-- ===== src/Replicat/Barrier.antt =====
-- `Replicat.apply_barriered` and `_apply_isolating_poison`.
pub mod Parts
use any2helios_db.Prelude.{
  ℕ, zero, suc, ◌+◌, max, String, Bool, true, false, Option, none, some, List, [], ◌∷◌, ◌++◌, ◌==◌,
  if◌then◌else◌, length,
}
use any2helios_db.Record.{ChangeRecord}
use any2helios_db.Replicat.{
  Action, done_with, raise, go_on, rescue, Driver, Config, Warning, dead_lettered,
  already_dead_lettered, Outcome, is_keymove,
}
use any2helios_db.Replicat.Apply.{apply}

-- `on_poison(record, reason, offset)`; the reason is the text of the exception.
abbrev pub OnPoison : Type 0 → Type 0
OnPoison S = ChangeRecord → ℕ → Action S Bool

-- A cursor callback that cannot fail.
abbrev pub OnFlush : Type 0 → Type 0
OnFlush S = ℕ → S → S

abbrev pub parked : ChangeRecord → Bool → Warning
parked r newly = if newly then dead_lettered r else already_dead_lettered r

module _ {S : Type 0} (D : Driver S) (cfg : Config) where
  -- The attempts at one record: `none` when all of them failed.
  unfoldable pub try_record : ℕ → ChangeRecord → Action S (Option Outcome)
  try_record zero r s = (s, some none)
  try_record (suc n) r s =
      rescue (go_on (apply D cfg (r ∷ []) s) (λ out. done_with (some out))) (try_record n r)

  -- The loop of `_apply_isolating_poison`, from the record of that offset on.
  unfoldable pub isolate : ℕ → OnPoison S → ℕ → List ChangeRecord → Action S Outcome
  unfolding try_record
  isolate retries on_poison offset [] s = (s, some (0, []))
  isolate retries on_poison offset (r ∷ rs) s = go_on (try_record (max 1 retries) r s) (λ tried s1.
      let resume = isolate retries on_poison (suc offset) rs in
      elim tried [
        | some out ↦ go_on (resume s1) (λ more. done_with (out.0 + more.0, out.1 ++ more.1))
        | none ↦ go_on (D.ping s1) (λ _ s2.
            go_on (on_poison r offset s2)
              (λ newly s3. go_on (resume s3) (λ more. done_with (more.0, parked r newly ∷ more.1))))
      ])

  -- `_apply_isolating_poison`
  unfoldable pub apply_isolating_poison : List ChangeRecord → ℕ → OnPoison S → ℕ → Action S Outcome
  unfolding isolate
  apply_isolating_poison batch retries on_poison base_consumed =
      isolate retries on_poison (suc base_consumed) batch

  -- How `flush_batch` applies a batch; without retries or a callback the policy is off.
  unfoldable pub apply_batch : ℕ → Option (OnPoison S) → ℕ → List ChangeRecord → Action S Outcome
  unfolding apply_isolating_poison
  apply_batch retries none consumed batch s = apply D cfg batch s
  apply_batch retries (some on_poison) consumed batch s =
      if retries == 0
      then apply D cfg batch s
      else rescue (apply D cfg batch s) (apply_isolating_poison batch retries on_poison consumed)

  module _ (on_flush : OnFlush S) (retries : ℕ) (on_poison : Option (OnPoison S)) where
    -- A part is applied, its outcome is added, and the cursor is persisted past it.
    abbrev pub flushed :
        S × Option Outcome → ℕ → Outcome → (Outcome → Action S Outcome) → S × Option Outcome
    flushed applied consumed total k =
        go_on applied (λ out s. k (total.0 + out.0, total.1 ++ out.1) (on_flush consumed s))

    -- `flush_batch`, and what comes after it
    abbrev pub flush_batch :
        List ChangeRecord → ℕ → Outcome → (ℕ → Outcome → Action S Outcome) → Action S Outcome
    flush_batch [] consumed total k s = k consumed total s
    flush_batch (r ∷ batch) consumed total k s =
        let after = consumed + length (r ∷ batch) in
        flushed (apply_batch retries on_poison consumed (r ∷ batch) s) after total (k after)

    -- The loop of `apply_barriered`, with its `batch`, `consumed`, `total_applied` and `warnings`.
    unfoldable pub barrier_loop :
        List ChangeRecord → List ChangeRecord → ℕ → Outcome → Action S Outcome
    unfolding apply_batch is_keymove
    barrier_loop [] batch consumed total =
        flush_batch batch consumed total (λ consumed' total'. done_with total')
    barrier_loop (r ∷ rs) batch consumed total =
        let alone = flush_batch batch consumed total (λ consumed' total' s.
          flushed (apply D cfg (r ∷ []) s) (suc consumed') total'
            (barrier_loop rs [] (suc consumed'))) in
        let longer = barrier_loop rs (batch ++ r ∷ []) consumed total in
        if is_keymove cfg r then alone else longer

    -- `apply_barriered`
    unfoldable pub apply_barriered : List ChangeRecord → Action S Outcome
    unfolding barrier_loop
    apply_barriered records = barrier_loop records [] 0 (0, [])
