-- ===== src/Examples/Extract.antt =====
-- The theorems on the capture cycle at a crash after one of two records.
use any2helios_db.Prelude.{◌<◌, ◌≡◌, refl, some, [], ◌∷◌, inl, inr}
use any2helios_db.Record.{source_pos_key}
use any2helios_db.Extract.{keep_new, drop_already_trailed, snapshot_start_seq}
use any2helios_db.Extract.Resume.{last_pos, snapshot_start_seq-above}
use any2helios_db.Examples.Sample.{plain}

-- Two transactions that interleave are captured in the order of their commits. The cycle crashes
-- behind the change at 5; the one at 2, of the transaction that committed later, is then dropped.
interleaved_dropped :
    drop_already_trailed (last_pos (plain 5 ∷ [])) (plain 5 ∷ plain 2 ∷ []) (some (7, 1)) ≡ []
unfolding drop_already_trailed keep_new source_pos_key
interleaved_dropped = refl

snapshot_start_seq-above_example :
    2 < snapshot_start_seq (plain 1 ∷ plain 2 ∷ []) (some 7) (some (7, 1))
unfolding source_pos_key
snapshot_start_seq-above_example =
    snapshot_start_seq-above (plain 1 ∷ plain 2 ∷ []) 7 2 (some (7, 1)) (inl (inr (inl refl)))
