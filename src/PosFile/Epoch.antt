-- ===== src/PosFile/Epoch.antt =====
-- `_require_matching_epoch_identity` of cdc/engine.py: the file beside a trail that names the cluster
-- whose positions the trail holds.
pub mod Kept
use any2helios_db.Prelude.{
  Bool, true, false, not, Option, none, some, [], ◌∷◌, ◌≡◌, refl, sym, ◌∙◌, ap, inl, inr, arith,
  if◌then◌else◌, Bool-cases,
}
use any2helios_db.Record.Codec.{Text}
use any2helios_db.Trail.{strip, is_empty}
use any2helios_db.CopyCodec.{text_eq}
use any2helios_db.PosFile.{File, Disk, Faults, write_pos_atomic}
use any2helios_db.PosFile.Crash.{content_of, fails, write_pos_atomic_outcome}

-- The check passes, finds another cluster, or cannot write the file.
pub data Verdict : Type 0 where
  passed mismatch failed : Verdict

-- `f.read().strip() or None`, where the file exists
unfoldable pub recorded : Option Text → Option Text
unfolding strip
recorded none = none
recorded (some raw) = let s = strip raw in if is_empty s then none else some s

abbrev pub written : Disk × Bool → Disk × Verdict
written (d, is_done) = (d, if is_done then passed else failed)

abbrev pub check_identity : Faults → Text → Disk → Option Text → Disk × Verdict
check_identity F identity d none = written (write_pos_atomic F identity d)
check_identity F identity d (some prev) = (d, if text_eq prev identity then passed else mismatch)

-- `_require_matching_epoch_identity`
unfoldable pub require_matching_epoch_identity : Faults → Option Text → Disk → Disk × Verdict
unfolding recorded write_pos_atomic
require_matching_epoch_identity F none d = (d, passed)
require_matching_epoch_identity F (some identity) d =
    check_identity F identity d (recorded (content_of d.entry))
