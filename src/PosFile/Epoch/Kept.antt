-- ===== src/PosFile/Epoch/Kept.antt =====
-- A trail is kept to the cluster that its first check recorded.
use any2helios_db.Prelude.{
  Bool, true, false, Option, none, some, [], ◌∷◌, ◌≡◌, refl, ◌∙◌, ap, arith, if◌then◌else◌,
}
use any2helios_db.Record.Codec.{Text}
use any2helios_db.Trail.{strip, is_empty}
use any2helios_db.CopyCodec.{text_eq}
use any2helios_db.PosFile.{Disk, Faults, write_pos_atomic}
use any2helios_db.PosFile.Crash.{content_of, fails, write_pos_atomic_outcome}
use any2helios_db.PosFile.Epoch.{
  passed, mismatch, failed, recorded, check_identity, require_matching_epoch_identity,
}

text_eq-same : (s t : Text) → text_eq s t ≡ true → s ≡ t
text_eq-same [] [] h = refl
text_eq-same [] (d ∷ t) h = ground arith
text_eq-same (c ∷ s) [] h = ground arith
text_eq-same (c ∷ s) (d ∷ t) h = ground (arith, text_eq-same s t)

recorded-identity : (s : Text) → strip s ≡ s → is_empty s ≡ false → recorded (some s) ≡ some s
unfolding recorded
recorded-identity s stripped named = rw (stripped, named) refl

passes-failed : (b : Bool) → (if b then passed else failed) ≡ passed → b ≡ true
passes-failed true h = refl
passes-failed false h = ground arith

passes-mismatch : (b : Bool) → (if b then passed else mismatch) ≡ passed → b ≡ true
passes-mismatch true h = refl
passes-mismatch false h = ground arith

-- A check that passes leaves its identity in the file.
check_identity-records :
    (F : Faults) (identity : Text) (d : Disk) (prev : Option Text)
    → strip identity ≡ identity
    → is_empty identity ≡ false
    → recorded (content_of d.entry) ≡ prev
    → (check_identity F identity d prev).1 ≡ passed
    → recorded (content_of (check_identity F identity d prev).0.entry) ≡ some identity
check_identity-records F identity d none stripped named is_prev passes =
    let (is_done, entry, saved, temp) = write_pos_atomic_outcome F identity d in
    let done : (write_pos_atomic F identity d).1 ≡ true = passes-failed _ passes in
    let whole : fails F ≡ false = ground arith in
    rw entry (rw whole (recorded-identity identity stripped named))
check_identity-records F identity d (some prev) stripped named is_prev passes =
    is_prev ∙ ap some (text_eq-same prev identity (passes-mismatch _ passes))

-- After a check of an identity that passed, a check of any identity passes when it is that identity
-- and else finds another cluster, and neither changes the file; the identity is not blank and has
-- no white space around it.
pub require_matching_epoch_identity-again :
    (F G : Faults) (identity next : Text) (d : Disk)
    → strip identity ≡ identity
    → is_empty identity ≡ false
    → (require_matching_epoch_identity F (some identity) d).1 ≡ passed
    → let d' = (require_matching_epoch_identity F (some identity) d).0 in
      require_matching_epoch_identity G (some next) d'
      ≡ (d', if text_eq identity next then passed else mismatch)
unfolding require_matching_epoch_identity
require_matching_epoch_identity-again F G identity next d stripped named passes =
    let kept = check_identity-records F identity d _ stripped named refl passes in rw kept refl
