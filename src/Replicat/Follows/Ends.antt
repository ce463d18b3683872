-- ===== src/Replicat/Follows/Ends.antt =====
-- What raises for good may leave less behind than what returns: a second relation for the end by an
-- exception, carried through the barrier and the transactions with the callbacks.
use any2helios_db.Prelude.{
  ℕ, suc, Bool, true, false, if◌then◌else◌, ◌==◌, ◌+◌, String, subst, sym, Option, none, some, List,
  [], ◌∷◌, ◌++◌, max, length,
}
use any2helios_db.Record.{ChangeRecord}
use any2helios_db.Replicat.{Action, go_on, rescue, Driver, Config, Outcome}
use any2helios_db.Replicat.Apply.{apply}
use any2helios_db.Replicat.Barrier.{
  OnPoison, OnFlush, try_record, isolate, apply_isolating_poison, apply_batch, apply_barriered,
}
use any2helios_db.Replicat.Barrier.Parts.{
  Part, single, batch, part_records, apply_part, run_parts, apply_barriered-runs_parts,
}
use any2helios_db.Replicat.Txn.{attempts, park, give_up, attempts_of, apply_txn}
use any2helios_db.Replicat.Follows.{Rule, Follows, apply-Follows}
use any2helios_db.Replicat.Follows.Session.{Session, try_record-Follows, attempts-Follows}

-- An exception leaves `X`, which `R` implies and may precede.
pub record Falls {S : Type 0} (R X : S → S → Type 0) : Type 0 where
  pub weaken : (a b : S) → R a b → X a b
  pub fall : (a b c : S) → R a b → X b c → X a c

abbrev pub Ends : {S A : Type 0} → (S → S → Type 0) → (S → S → Type 0) → S → S × Option A → Type 0
Ends R X s (s', none) = X s s'
Ends R X s (s', some a) = R s s'

-- So ends the callback of the poison policy, where there is one.
abbrev pub Parks : {S : Type 0} → (S → S → Type 0) → (S → S → Type 0) → Option (OnPoison S) → Type 0
Parks R X none = Unit
Parks {S = S} R X (some on_poison) =
    (r : ChangeRecord) (n : ℕ) (s : S) → Ends R X s (on_poison r n s)

module _ {S : Type 0} (R X : S → S → Type 0) (rule : Rule R) (falls : Falls R X) where
  pub Follows-Ends : {A : Type 0} (s : S) (m : S × Option A) → Follows R s m → Ends R X s m
  Follows-Ends s (s', none) h = falls.weaken s s' h.leads
  Follows-Ends s (s', some a) h = h.leads

  pub Ends-from : {A : Type 0} (s s' : S) (m : S × Option A) → R s s' → Ends R X s' m → Ends R X s m
  Ends-from s s' (s'', none) h k = falls.fall s s' s'' h k
  Ends-from s s' (s'', some a) h k = rule.chain s s' s'' h k

  pub go_on-Ends :
      {A B : Type 0} (s : S) (m : S × Option A) (k : A → Action S B)
      → Ends R X s m
      → ((a : A) (s' : S) → Ends R X s' (k a s'))
      → Ends R X s (go_on m k)
  go_on-Ends s (s', none) k h next = h
  go_on-Ends s (s', some a) k h next = Ends-from s s' (k a s') h (next a s')

  pub rescue-Ends :
      {A : Type 0} (s : S) (m : S × Option A) (k : Action S A)
      → Follows R s m
      → ((s' : S) → Ends R X s' (k s'))
      → Ends R X s (rescue m k)
  rescue-Ends s (s', none) k h next = Ends-from s s' (k s') h.leads (next s')
  rescue-Ends s (s', some a) k h next = h.leads

  pub if-Ends :
      {A : Type 0} (s : S) (b : Bool) (m n : S × Option A)
      → Ends R X s m
      → Ends R X s n
      → Ends R X s (if b then m else n)
  if-Ends s true m n h k = h
  if-Ends s false m n h k = k

module _ {S : Type 0} (D : Driver S) (cfg : Config) (R X : S → S → Type 0) (rule : Rule R)
    (falls : Falls R X) (session : Session D R) where
  open session use {writes, pings}

  done-Ends :
      {A B : Type 0} (s : S) (m : S × Option A) (f : A → B)
      → Ends R X s m
      → Ends R X s (go_on m (λ a s'. (s', some (f a))))
  done-Ends s m f h = go_on-Ends R X rule falls s m _ h (λ a s'. rule.stay s')

  isolate-Ends :
      (retries : ℕ) (on_poison : OnPoison S) (offset : ℕ) (rs : List ChangeRecord) (s : S)
      → Parks R X (some on_poison)
      → Ends R X s (isolate D cfg retries on_poison offset rs s)
  unfolding isolate
  isolate-Ends retries on_poison offset [] s parks = rule.stay s
  isolate-Ends retries on_poison offset (r ∷ rs) s parks =
      go_on-Ends R X rule falls s (try_record D cfg (max 1 retries) r s) _
        (Follows-Ends R X rule falls s (try_record D cfg (max 1 retries) r s)
          (try_record-Follows D cfg R rule session (max 1 retries) r s))
        (elim [
          | some out ↦ λ s1.
              let resume = isolate D cfg retries on_poison (suc offset) rs s1 in
              done-Ends s1 resume _ (isolate-Ends retries on_poison (suc offset) rs s1 parks)
          | none ↦ λ s1.
              go_on-Ends R X rule falls s1 (D.ping s1) _
                (Follows-Ends R X rule falls s1 (D.ping s1) (pings s1))
                (λ _ s2.
                  go_on-Ends R X rule falls s2 (on_poison r offset s2) _ (parks r offset s2)
                    (λ newly s3.
                      let resume = isolate D cfg retries on_poison (suc offset) rs s3 in
                      done-Ends s3 resume _
                        (isolate-Ends retries on_poison (suc offset) rs s3 parks)))
        ])

  plain-Ends : (rs : List ChangeRecord) (s : S) → Ends R X s (apply D cfg rs s)
  plain-Ends rs s =
      Follows-Ends R X rule falls s (apply D cfg rs s) (apply-Follows D cfg R rule writes rs s)

  apply_batch-Ends :
      (retries : ℕ) (on_poison : Option (OnPoison S)) (consumed : ℕ) (rs : List ChangeRecord)
      (s : S)
      → Parks R X on_poison
      → Ends R X s (apply_batch D cfg retries on_poison consumed rs s)
  unfolding apply_batch apply_isolating_poison
  apply_batch-Ends retries none consumed rs s parks = plain-Ends rs s
  apply_batch-Ends retries (some on_poison) consumed rs s parks =
      let isolated = isolate D cfg retries on_poison (suc consumed) rs in
      if-Ends R X rule falls s (retries == 0) (apply D cfg rs s)
        (rescue (apply D cfg rs s) isolated) (plain-Ends rs s)
        (rescue-Ends R X rule falls s (apply D cfg rs s) isolated
          (apply-Follows D cfg R rule writes rs s)
          (λ s'. isolate-Ends retries on_poison (suc consumed) rs s' parks))

  module _ (on_flush : OnFlush S) (retries : ℕ) (on_poison : Option (OnPoison S))
      (flushes : (n : ℕ) (s : S) → R s (on_flush n s)) (parks : Parks R X on_poison) where
    apply_part-Ends :
        (consumed : ℕ) (p : Part) (s : S)
        → Ends R X s (apply_part D cfg on_flush retries on_poison consumed p s)
    apply_part-Ends consumed (single r) s = plain-Ends (r ∷ []) s
    apply_part-Ends consumed (batch r rs) s =
        apply_batch-Ends retries on_poison consumed (r ∷ rs) s parks

    run_parts-Ends :
        (ps : List Part) (consumed : ℕ) (total : Outcome) (s : S)
        → Ends R X s (run_parts D cfg on_flush retries on_poison ps consumed total s)
    run_parts-Ends [] consumed total s = rule.stay s
    run_parts-Ends (p ∷ ps) consumed total s =
        let after = consumed + length (part_records p) in
        go_on-Ends R X rule falls s (apply_part D cfg on_flush retries on_poison consumed p s) _
          (apply_part-Ends consumed p s)
          (λ out s'.
            let total' : Outcome = (total.0 + out.0, total.1 ++ out.1) in
            Ends-from R X rule falls s' (on_flush after s')
              (run_parts D cfg on_flush retries on_poison ps after total' (on_flush after s'))
              (flushes after s') (run_parts-Ends ps after total' (on_flush after s')))

    pub apply_barriered-Ends :
        (records : List ChangeRecord) (s : S)
        → Ends R X s (apply_barriered D cfg on_flush retries on_poison records s)
    apply_barriered-Ends records s =
        let (parts, _, _, runs) =
          apply_barriered-runs_parts D cfg on_flush retries on_poison records in
        subst (Ends R X s) (sym (runs s)) (run_parts-Ends parts 0 (0, []) s)

  module _ (name_of : String → String) (records : List ChangeRecord) where
    park-Ends :
        (on_poison : OnPoison S) (offset : ℕ) (rs : List ChangeRecord) (s : S)
        → Parks R X (some on_poison)
        → Ends R X s (park D cfg name_of on_poison offset rs s)
    unfolding park
    park-Ends on_poison offset [] s parks = rule.stay s
    park-Ends on_poison offset (r ∷ rs) s parks =
        go_on-Ends R X rule falls s (on_poison r offset s) _ (parks r offset s) (λ newly s1.
          done-Ends s1 (park D cfg name_of on_poison (suc offset) rs s1) _
            (park-Ends on_poison (suc offset) rs s1 parks))

    give_up-Ends :
        (retries : ℕ) (on_poison : Option (OnPoison S)) (base : ℕ) (s : S)
        → Parks R X on_poison
        → Ends R X s (give_up D cfg name_of retries on_poison base records s)
    unfolding give_up
    give_up-Ends retries none base s parks = falls.weaken s s (rule.stay s)
    give_up-Ends retries (some on_poison) base s parks =
        if-Ends R X rule falls {A = Outcome} s (retries == 0) (s, none) _
          (falls.weaken s s (rule.stay s))
          (go_on-Ends R X rule falls s (D.ping s) _
            (Follows-Ends R X rule falls s (D.ping s) (pings s))
            (λ _ s1.
              done-Ends s1 (park D cfg name_of on_poison (suc base) records s1) _
                (park-Ends on_poison (suc base) records s1 parks)))

    pub apply_txn-Ends :
        (retries : ℕ) (on_poison : Option (OnPoison S)) (base : ℕ) (s : S)
        → Parks R X on_poison
        → Ends R X s (apply_txn D cfg name_of records retries on_poison base s)
    unfolding apply_txn
    apply_txn-Ends retries on_poison base s parks =
        let tries =
          attempts D cfg name_of (attempts_of D cfg name_of retries on_poison) records s in
        go_on-Ends R X rule falls s tries _
          (Follows-Ends R X rule falls s tries (
            attempts-Follows D cfg R rule session name_of records
              (attempts_of D cfg name_of retries on_poison) s))
          (elim [
            | some out ↦ λ s1. rule.stay s1
            | none ↦ λ s1. give_up-Ends retries on_poison base s1 parks
          ])
