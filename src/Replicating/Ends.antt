-- ===== src/Replicating/Ends.antt =====
-- A relation between the states before and after, carried through the loops of a run.
use any2helios_db.Prelude.{
  ℕ, zero, suc, ◌+◌, String, Bool, true, false, some, List, [], ◌∷◌, ◌==◌, if◌then◌else◌, length,
  Option-cases, inl, inr,
}
use any2helios_db.Record.Codec.{Codec}
use any2helios_db.DeadLetter.{Journal}
use any2helios_db.Trail.{Trail, is_empty}
use any2helios_db.Apply.{ApplySegment, atomic, barrier, segment_for_apply, read_txn_aligned}
use any2helios_db.Replicat.{Driver, Config, Outcome, is_keymove}
use any2helios_db.Replicat.Txn.{apply_txn}
use any2helios_db.Replicat.Follows.{Rule}
use any2helios_db.Replicat.Follows.Session.{Session}
use any2helios_db.Replicat.Follows.Ends.{
  Falls, Ends, Parks, go_on-Ends, if-Ends, apply_barriered-Ends, apply_txn-Ends, Ends-from,
}
use any2helios_db.Replicating.{
  World, Options, target_driver, set_cursor, poison_cb, flush_from, run_segment, segment_length,
  run_segments, run_chunks, limit_of, add_outcome,
}

module _ {T : Type 0} (J : Journal) (D : Driver T) (cfg : Config) (name_of : String → String)
    (opts : Options) (name : String) (R X : World T → World T → Type 0) (rule : Rule R)
    (falls : Falls R X) (session : Session (target_driver D) R)
    (cursors : (cursor : ℕ) (w : World T) → R w (set_cursor J D cfg name_of opts name cursor w))
    (parks : (chunk_start : ℕ)
      → Parks R X (some (poison_cb J D cfg name_of opts name chunk_start))) where
  run_segment-Ends :
      (start consumed : ℕ) (seg : ApplySegment) (w : World T)
      → Ends R X w (run_segment J D cfg name_of opts name start consumed seg w)
  unfolding run_segment flush_from
  run_segment-Ends start consumed (atomic group) w =
      let cb = poison_cb J D cfg name_of opts name start in
      go_on-Ends R X rule falls w
        (apply_txn (target_driver D) cfg name_of group opts.poison_retries (some cb) consumed w) _
        (apply_txn-Ends (target_driver D) cfg R X rule falls session name_of group
          opts.poison_retries (some cb) consumed w (parks start))
        (λ out w'. cursors _ w')
  run_segment-Ends start consumed (barrier run) w =
      apply_barriered-Ends (target_driver D) cfg R X rule falls session
        (flush_from J D cfg name_of opts name (start + consumed)) opts.poison_retries
        (some (poison_cb J D cfg name_of opts name (start + consumed))) (λ n w'. cursors _ w')
        (parks (start + consumed)) run w

  pub run_segments-Ends :
      (start : ℕ) (segs : List ApplySegment) (consumed : ℕ) (total : Outcome) (w : World T)
      → Ends R X w (run_segments J D cfg name_of opts name start segs consumed total w)
  unfolding run_segments
  run_segments-Ends start [] consumed total w = rule.stay w
  run_segments-Ends start (seg ∷ segs) consumed total w =
      go_on-Ends R X rule falls w (run_segment J D cfg name_of opts name start consumed seg w) _
        (run_segment-Ends start consumed seg w)
        (λ out.
          run_segments-Ends start segs (consumed + segment_length J D cfg name_of opts name seg)
            (add_outcome J D cfg name_of opts name total out))

  module _ (C : Codec) (t : Trail) (rounds : ℕ) where
    pub run_chunks-Ends :
        (fuel start read_total : ℕ) (total : Outcome) (w : World T)
        → Ends R X w (run_chunks J D cfg name_of opts name C fuel t start read_total total rounds w)
    unfolding run_chunks
    run_chunks-Ends zero start read_total total w = rule.stay w
    run_chunks-Ends (suc fuel) start read_total total w =
        elim (Option-cases
          (read_txn_aligned C rounds t start (limit_of opts.apply_batch) opts.txn_enabled)) [
            | inl corrupt ↦ rw (corrupt, run_chunks) (falls.weaken w w (rule.stay w))
            | inr ((records, next_cursor), at) ↦
                let segs = segment_for_apply records (is_keymove cfg) opts.txn_enabled in
                rw (at, run_chunks)
                  (if-Ends R X rule falls w (is_empty records) _ _
                    (stopped (next_cursor == start) next_cursor)
                    (go_on-Ends R X rule falls w
                      (run_segments J D cfg name_of opts name start segs 0 total w) _
                      (run_segments-Ends start segs 0 total w)
                      (λ total' w'.
                        let w'' = set_cursor J D cfg name_of opts name next_cursor w' in
                        Ends-from R X rule falls w' w''
                          (run_chunks J D cfg name_of opts name C fuel t next_cursor
                            (read_total + length records) total' rounds w'')
                          (cursors next_cursor w')
                          (run_chunks-Ends fuel next_cursor (read_total + length records) total'
                            w''))))
          ]
      where
        stopped :
            (b : Bool) (cursor : ℕ)
            → R w (if b then w else set_cursor J D cfg name_of opts name cursor w)
        stopped true cursor = rule.stay w
        stopped false cursor = cursors cursor w
