-- ===== src/Replicat/Follows/Session.antt =====
-- The relation of the parent, through the transactions of the target.
use any2helios_db.Prelude.{ℕ, zero, suc, String, Option, none, some, List, [], ◌∷◌}
use any2helios_db.Record.{ChangeRecord}
use any2helios_db.Replicat.{go_on, Driver, Config}
use any2helios_db.Replicat.Barrier.{try_record}
use any2helios_db.Replicat.Txn.{attempt, rolled_back, attempts}
use any2helios_db.Replicat.Follows.{
  Rule, Follows, Writes, here-Follows, go_on-Follows, rescue-Follows, apply-Follows,
  apply_ordered-Follows,
}

-- The other operations of the driver respect the relation too.
pub record Session {S : Type 0} (D : Driver S) (R : S → S → Type 0) : Type 0 where
  pub writes : Writes D R
  pub begins : (s : S) → Follows R s (D.begin s)
  pub commits : (s : S) → Follows R s (D.commit s)
  pub rolls_back : (s : S) → Follows R s (D.rollback s)
  pub pings : (s : S) → Follows R s (D.ping s)

module _ {S : Type 0} (D : Driver S) (cfg : Config) (R : S → S → Type 0) (rule : Rule R)
    (session : Session D R) where
  open session use {writes, begins, commits, rolls_back}

  done-Follows :
      {A B : Type 0} (s : S) (m : S × Option A) (f : A → Option B)
      → Follows R s m
      → Follows R s (go_on m (λ a s'. (s', f a)))
  done-Follows s m f h = go_on-Follows R rule s m _ h (λ a s'. here-Follows R rule s' (f a))

  pub try_record-Follows : (n : ℕ) (r : ChangeRecord) (s : S) → Follows R s (try_record D cfg n r s)
  unfolding try_record
  try_record-Follows zero r s = here-Follows R rule s _
  try_record-Follows (suc n) r s =
      rescue-Follows R rule s _ _
        (done-Follows s _ _ (apply-Follows D cfg R rule writes (r ∷ []) s))
        (λ s'. try_record-Follows n r s')

  module _ (name_of : String → String) (records : List ChangeRecord) where
    attempt-Follows : (s : S) → Follows R s (attempt D cfg name_of records s)
    unfolding attempt
    attempt-Follows s =
        go_on-Follows R rule s _ _ (apply_ordered-Follows D cfg R rule writes name_of records s)
          (λ out s'. done-Follows s' _ _ (commits s'))

    rolled_back-Follows : (s : S) → Follows R s (rolled_back D cfg name_of s)
    unfolding rolled_back
    rolled_back-Follows s =
        rescue-Follows R rule s _ _ (done-Follows s _ _ (rolls_back s))
          (λ s'. here-Follows R rule s' _)

    pub attempts-Follows : (n : ℕ) (s : S) → Follows R s (attempts D cfg name_of n records s)
    unfolding attempts
    attempts-Follows zero s = here-Follows R rule s _
    attempts-Follows (suc n) s = go_on-Follows R rule s _ _ (begins s) (λ _ s1.
        go_on-Follows R rule s1 _ _
          (rescue-Follows R rule s1 _ _ (done-Follows s1 _ _ (attempt-Follows s1))
            rolled_back-Follows)
          (elim [ some out ↦ λ s2. here-Follows R rule s2 _ | none ↦ attempts-Follows n ]))
