-- ===== src/Replicating/Chunks.antt =====
-- The loop over the chunks ends, and what it applies is the trail.
use any2helios_db.Prelude.{
  ℕ, zero, suc, ◌+◌, ◌≤◌, ◌<◌, ◌≡◌, ◌≢◌, refl, sym, ap, ◌∙◌, String, true, Option, none, some, List,
  [], ◌∷◌, ◌++◌, append_assoc, ◌==◌, length, length-append, arith,
}
use any2helios_db.Record.{ChangeRecord}
use any2helios_db.Record.Codec.{Text, Codec, NoNewline}
use any2helios_db.Trail.Layout.{Layout, trail_of}
use any2helios_db.Apply.{read_txn_aligned, segment_for_apply}
use any2helios_db.DeadLetter.{Journal}
use any2helios_db.Replicat.{Action, go_on, Driver, Config, Outcome, is_keymove}
use any2helios_db.Replicat.Barrier.Parts.{go_on-cong}
use any2helios_db.Replicating.{
  World, Options, set_cursor, run_segments, run_chunks, limit_of, Progress,
}
use any2helios_db.Replicating.Reads.{
  MayStay, limit_of-IsPositive, left_from, reads_chunk, left_from-after,
}

module _ {T : Type 0} (J : Journal) (D : Driver T) (cfg : Config) (name_of : String → String)
    (opts : Options) (name : String) where
  -- The chunks one after the other, each with its cursor.
  abbrev pub apply_chunks :
      List (List ChangeRecord)
      → ℕ
      → ℕ
      → Outcome
      → Action (World T) (Progress J D cfg name_of opts name)
  apply_chunks [] start read_total total w = (w, some (total, read_total, start))
  apply_chunks (ys ∷ chunks) start read_total total w =
      let segs = segment_for_apply ys (is_keymove cfg) opts.txn_enabled in
      let next = start + length ys in
      go_on (run_segments J D cfg name_of opts name start segs 0 total w) (λ total' w'.
        apply_chunks chunks next (read_total + length ys) total'
          (set_cursor J D cfg name_of opts name next w'))

abbrev pub join_chunks : List (List ChangeRecord) → List ChangeRecord
join_chunks [] = []
join_chunks (ys ∷ chunks) = ys ++ join_chunks chunks

-- No chunk is empty.
abbrev pub AreChunks : List (List ChangeRecord) → Type 0
AreChunks [] = Unit
AreChunks ([] ∷ chunks) = ⊥
AreChunks ((r ∷ rs) ∷ chunks) = AreChunks chunks

pub go_on_assoc :
    {S A B E : Type 0} (m : S × Option A) (k : A → Action S B) (f : B → Action S E)
    → go_on (go_on m k) f ≡ go_on m (λ a s. go_on (k a s) f)
go_on_assoc (s, none) k f = refl
go_on_assoc (s, some a) k f = refl

pub cons-ne-nil : (r : ChangeRecord) (rs : List ChangeRecord) → r ∷ rs ≢ []
cons-ne-nil r rs e = absurd (ground arith)

length_pos : (ys : List ChangeRecord) → ys ≢ [] → 0 < length ys
length_pos [] h = absurd (h refl)
length_pos (r ∷ rs) h = omega arith

module _ {T : Type 0} (J : Journal) (D : Driver T) (cfg : Config) (name_of : String → String)
    (opts : Options) (name : String) (C : Codec) (purged : ℕ) (last : Option ℕ) (rotate : ℕ)
    (l : Layout) (frag : Text) (clean : NoNewline frag) (rounds : ℕ) where
  -- The loop is a run of chunks, the same for every state of the world.
  abbrev pub IsRunOfChunks : ℕ → ℕ → List (List ChangeRecord) → Type 0
  IsRunOfChunks fuel start chunks =
      (read_total : ℕ) (total : Outcome) (w : World T)
      → run_chunks J D cfg name_of opts name C fuel (trail_of C purged last rotate l frag) start
          read_total total rounds w
        ≡ go_on (apply_chunks J D cfg name_of opts name chunks start read_total total w)
            (λ p w'. (w', some (some p)))

  stops :
      (fuel start : ℕ)
      → read_txn_aligned C rounds
          (trail_of C purged last rotate l frag)
          start
          (limit_of opts.apply_batch)
          opts.txn_enabled
        ≡ some ([], start + 0)
      → IsRunOfChunks (suc fuel) start []
  unfolding run_chunks
  stops fuel start reads read_total total w =
      let same : (start + 0 == start) ≡ true = ground arith in rw (reads, run_chunks, same) refl

  goes_on :
      (fuel start : ℕ) (r : ChangeRecord) (rs : List ChangeRecord)
      (chunks : List (List ChangeRecord))
      → read_txn_aligned C rounds
          (trail_of C purged last rotate l frag)
          start
          (limit_of opts.apply_batch)
          opts.txn_enabled
        ≡ some (r ∷ rs, start + length (r ∷ rs))
      → IsRunOfChunks fuel (start + length (r ∷ rs)) chunks
      → IsRunOfChunks (suc fuel) start ((r ∷ rs) ∷ chunks)
  unfolding run_chunks
  goes_on fuel start r rs chunks reads later read_total total w =
      let segs = segment_for_apply (r ∷ rs) (is_keymove cfg) opts.txn_enabled in
      let chunk = run_segments J D cfg name_of opts name start segs 0 total w in
      rw (reads, run_chunks)
        (go_on-cong chunk _ _ (λ total' w'. later _ total' _) ∙ sym (go_on_assoc chunk _ _))

  -- What a loop of that fuel does from that line on.
  abbrev pub AppliesChunks : ℕ → ℕ → Type 0
  AppliesChunks fuel start =
      (chunks : List (List ChangeRecord)) × (rest : List ChangeRecord) × (join_chunks chunks ++ rest
        ≡ left_from C purged last rotate l frag clean start)
      × AreChunks chunks
      × MayStay opts.txn_enabled rest
      × IsRunOfChunks fuel start chunks

  -- What a round reads.
  abbrev Reads : ℕ → List ChangeRecord → List ChangeRecord → Type 0
  Reads start ys zs =
      (ys ++ zs ≡ left_from C purged last rotate l frag clean start)
      × (read_txn_aligned C rounds (trail_of C purged last rotate l frag) start
            (limit_of opts.apply_batch) opts.txn_enabled
          ≡ some (ys, start + length ys))
      × (ys ≡ [] → MayStay opts.txn_enabled zs)

  round :
      (fuel start : ℕ) (ys zs : List ChangeRecord)
      → Reads start ys zs
      → (ys ≢ [] → AppliesChunks fuel (start + length ys))
      → (left_from C purged last rotate l frag clean (start + length ys) ≡ zs)
      → AppliesChunks (suc fuel) start
  round fuel start [] zs (e, reads, stay) later after =
      ([], zs, e, tt, stay refl, stops fuel start reads)
  round fuel start (r ∷ rs) zs (e, reads, stay) later after =
      let (chunks, rest, joined, ok, stays, runs) = later (cons-ne-nil r rs) in
      (
        (r ∷ rs) ∷ chunks,
        rest,
        append_assoc (r ∷ rs) (join_chunks chunks) rest
            ∙ ap (λ (t : List ChangeRecord). (r ∷ rs) ++ t) (joined ∙ after)
            ∙ e,
        ok,
        stays,
        goes_on fuel start r rs chunks reads runs,
      )

  pub run_chunks-loop :
      (fuel start : ℕ)
      → purged ≤ start
      → length (left_from C purged last rotate l frag clean start) < fuel
      → length (left_from C purged last rotate l frag clean start) < rounds
      → AppliesChunks fuel start
  run_chunks-loop zero start h enough rounds_enough = absurd (omega arith)
  run_chunks-loop (suc fuel) start h enough rounds_enough =
      let (ys, zs, e, found, stay) =
        reads_chunk C purged last rotate l frag clean start (limit_of opts.apply_batch) rounds
          opts.txn_enabled h (limit_of-IsPositive opts.apply_batch) rounds_enough in
      let after = left_from-after C purged last rotate l frag clean start ys zs h e in
      let total : length ys + length zs
          ≡ length (left_from C purged last rotate l frag clean start) =
        sym (length-append ys zs) ∙ ap length e in
      let left : length (left_from C purged last rotate l frag clean (start + length ys))
          ≡ length zs =
        ap length after in
      round fuel start ys zs (e, found, stay)
        (λ some_read.
          let grows : 0 < length ys = length_pos ys some_read in
          run_chunks-loop fuel (start + length ys) (omega arith) (omega arith) (omega arith))
        after

-- With fuel for one more round than records are left, the loop never runs out of fuel, and is from
-- every state one and the same run of chunks, which are the records behind the cursor in their
-- order, less what may stay at the end.
pub run_chunks-AppliesChunks :
    {T : Type 0} (J : Journal) (D : Driver T) (cfg : Config) (name_of : String → String)
    (opts : Options) (name : String) (C : Codec) (purged : ℕ) (last : Option ℕ) (rotate : ℕ)
    (l : Layout) (frag : Text) (clean : NoNewline frag) (rounds fuel start : ℕ)
    → purged ≤ start
    → length (left_from C purged last rotate l frag clean start) < fuel
    → length (left_from C purged last rotate l frag clean start) < rounds
    → AppliesChunks J D cfg name_of opts name C purged last rotate l frag clean rounds fuel start
run_chunks-AppliesChunks J D cfg name_of opts name C purged last rotate l frag clean rounds fuel
      start h enough rounds_enough =
    run_chunks-loop J D cfg name_of opts name C purged last rotate l frag clean rounds fuel start h
      enough rounds_enough
