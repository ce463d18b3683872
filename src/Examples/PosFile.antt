-- ===== src/Examples/PosFile.antt =====
-- A position file of cdc/posfile.py that is written while calls fail or the machine stops.
use any2helios_db.Prelude.{true, false, none, some, [], ◌∷◌, ◌≡◌, refl, ◌⊎◌}
use any2helios_db.Record.Codec.{Text}
use any2helios_db.Trail.{strip_left, is_space}
use any2helios_db.PosFile.{looks_like_pos, read_pos, Disk, Faults, write_pos_atomic, crashed_write}
use any2helios_db.PosFile.Epoch.{mismatch, require_matching_epoch_identity}
use any2helios_db.PosFile.Epoch.Kept.{require_matching_epoch_identity-again}
use any2helios_db.PosFile.Crash.{read_pos-crashed_write, write_pos_atomic_outcome}

abbrev old_pos : Text
old_pos = b'b' ∷ b'.' ∷ b'1' ∷ b':' ∷ b'5' ∷ []

abbrev new_pos : Text
new_pos = b'b' ∷ b'.' ∷ b'2' ∷ b':' ∷ b'4' ∷ []

abbrev disk : Disk
disk = record {
  entry = some (record { content = old_pos; is_synced = true });
  saved = some (record { content = old_pos; is_synced = true });
  temp = none;
}

abbrev no_dir : Faults
no_dir = record {
  no_temp = false;
  part = none;
  no_sync = false;
  no_replace = false;
  no_unlink = false;
  no_sync_dir = true;
}

abbrev torn_write : Faults
torn_write = record no_dir { part = some (b'b' ∷ []) }

looks_like_pos_lsn : looks_like_pos (b'1' ∷ b'6' ∷ b'/' ∷ b'B' ∷ b'3' ∷ []) ≡ true
unfolding looks_like_pos strip_left is_space
looks_like_pos_lsn = refl

looks_like_pos_truncated : looks_like_pos (b'1' ∷ b'6' ∷ b'/' ∷ []) ≡ false
unfolding looks_like_pos strip_left is_space
looks_like_pos_truncated = refl

-- A file that was cut to nothing is refused.
read_pos_empty : read_pos (some []) ≡ none
unfolding read_pos strip_left
read_pos_empty = refl

read_pos-crashed_write_example :
    let found = read_pos (crashed_write no_dir new_pos disk 4 false (λ s. [])) in
    (found ≡ read_pos (some old_pos))
    ⊎ ((found ≡ read_pos (some old_pos)) ⊎ (found ≡ some (some new_pos)))
unfolding looks_like_pos strip_left is_space
read_pos-crashed_write_example =
    read_pos-crashed_write no_dir new_pos disk 4 false (λ s. []) refl refl refl

write_pos_atomic_outcome_example :
    ((write_pos_atomic torn_write new_pos disk).1 ≡ false)
    × ((write_pos_atomic torn_write new_pos disk).0.entry ≡ disk.entry)
    × ((write_pos_atomic torn_write new_pos disk).0.saved ≡ disk.saved)
    × ((torn_write.no_temp ≡ true)
        ⊎ ((torn_write.no_unlink ≡ true)
            ⊎ ((write_pos_atomic torn_write new_pos disk).0.temp ≡ none)))
write_pos_atomic_outcome_example = write_pos_atomic_outcome torn_write new_pos disk

abbrev new_disk : Disk
new_disk = record { entry = none; saved = none; temp = none }

abbrev cluster : Text
cluster = b'7' ∷ b':' ∷ b'1' ∷ []

abbrev restored : Text
restored = b'7' ∷ b':' ∷ b'2' ∷ []

require_matching_epoch_identity-again_example :
    let d' = (require_matching_epoch_identity no_dir (some cluster) new_disk).0 in
    require_matching_epoch_identity torn_write (some restored) d' ≡ (d', mismatch)
unfolding require_matching_epoch_identity strip_left is_space
require_matching_epoch_identity-again_example =
    require_matching_epoch_identity-again no_dir torn_write cluster restored new_disk refl refl refl
