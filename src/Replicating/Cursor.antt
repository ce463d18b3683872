-- ===== src/Replicating/Cursor.antt =====
-- The cursor that the registry holds once a run has returned.
use any2helios_db.Prelude.{
  ℕ, ◌+◌, ◌≡◌, refl, ◌∙◌, ap, sym, subst, not, ◌&&◌, ltb, ◌==◌, true, false, String, none, some,
  List, [], ◌∷◌, Option, length, length-append, arith, ◌≤◌, ◌<◌,
}
use any2helios_db.Record.{ChangeRecord}
use any2helios_db.Record.Codec.{Text, Codec, NoNewline}
use any2helios_db.Trail.Layout.{Layout, trail_of}
use any2helios_db.Apply.{segment_for_apply, ApplySegment}
use any2helios_db.Registry.{ExtractInfo, get}
use any2helios_db.Registry.Stored.{get-set_apply_cursor}
use any2helios_db.DeadLetter.{Journal}
use any2helios_db.Replicat.{go_on, Driver, Config, Outcome, is_keymove}
use any2helios_db.Replicat.Follows.{Rule}
use any2helios_db.Replicat.Follows.Session.{Session}
use any2helios_db.Replicat.Follows.Ends.{Falls, Ends, Parks, if-Ends}
use any2helios_db.Replicating.{
  World, Options, target_driver, set_cursor, park_letter, is_parked, break_circuit, poison_cb,
  run_segments, run_chunks, Progress,
}
use any2helios_db.Replicating.Ends.{run_segments-Ends}
use any2helios_db.Replicating.Reads.{left_from}
use any2helios_db.Replicating.Chunks.{apply_chunks, join_chunks, run_chunks-AppliesChunks}

module _ {T : Type 0} (J : Journal) (D : Driver T) (cfg : Config) (name_of : String → String)
    (opts : Options) (name : String) where
  -- The extract is registered.
  abbrev pub IsKnown : World T → Type 0
  IsKnown w = (x : ExtractInfo) × (get name w.registry ≡ some x)

  -- The registry has that cursor for the extract.
  abbrev pub IsAt : ℕ → World T → Type 0
  IsAt cursor w = (x : ExtractInfo) × (get name w.registry ≡ some x) × (x.apply_cursor ≡ cursor)

  abbrev StaysKnown : World T → World T → Type 0
  StaysKnown w w' = IsKnown w → IsKnown w'

  StaysKnown-Rule : Rule StaysKnown
  StaysKnown-Rule = record { stay = λ w h. h; chain = λ a b c p q h. q (p h) }

  StaysKnown-Falls : Falls StaysKnown StaysKnown
  StaysKnown-Falls = record { weaken = λ a b p. p; fall = λ a b c p q h. q (p h) }

  known-Session : Session (target_driver D) StaysKnown
  known-Session = record {
    writes = record {
      upserts = λ t ks cs rows w. record { leads = λ h. h };
      deletes = λ t ks rows w. record { leads = λ h. h };
      updates = λ t ks cs rows w. record { leads = λ h. h };
    };
    begins = λ w. record { leads = λ h. h };
    commits = λ w. record { leads = λ h. h };
    rolls_back = λ w. record { leads = λ h. h };
    pings = λ w. record { leads = λ h. h };
  }

  set_cursor-IsAt :
      (cursor : ℕ) (w : World T)
      → IsKnown w
      → IsAt cursor (set_cursor J D cfg name_of opts name cursor w)
  set_cursor-IsAt cursor w (x, there) =
      (_, get-set_apply_cursor name cursor w.registry x there, refl)

  set_cursor-StaysKnown :
      (cursor : ℕ) (w : World T) → StaysKnown w (set_cursor J D cfg name_of opts name cursor w)
  set_cursor-StaysKnown cursor w h = let (x, there, _) = set_cursor-IsAt cursor w h in (x, there)

  poison_cb-StaysKnown :
      (chunk_start : ℕ)
      → Parks StaysKnown StaysKnown (some (poison_cb J D cfg name_of opts name chunk_start))
  unfolding poison_cb park_letter break_circuit
  poison_cb-StaysKnown chunk_start r offset w =
      let stays = if-Ends StaysKnown StaysKnown StaysKnown-Rule StaysKnown-Falls in
      let after = park_letter J D cfg name_of opts name r (chunk_start + offset) w in
      stays w (is_parked J D cfg name_of opts name r w) (w, some false)
        (break_circuit J D cfg name_of opts name after) (λ h. h)
        (stays w (not (opts.max_poison == 0) && ltb opts.max_poison after.poisoned) (after, none)
          (after, some true) (λ h. h) (λ h. h))

  -- A return with the cursor behind `n` more records, which were counted.
  abbrev pub IsSettled : ℕ → ℕ → ℕ → World T × Option (Progress J D cfg name_of opts name) → Type 0
  IsSettled start read_total n (w, none) = Unit
  IsSettled start read_total n (w, some p) = IsAt p.2 w × (p.2 ≡ start + n) × (p.1 ≡ read_total + n)

  IsSettled-more :
      (start read_total n k : ℕ) (m : World T × Option (Progress J D cfg name_of opts name))
      → IsSettled (start + n) (read_total + n) k m
      → IsSettled start read_total (n + k) m
  IsSettled-more start read_total n k (w, none) h = tt
  IsSettled-more start read_total n k (w, some p) (at, cursor, count) =
      (at, omega arith, omega arith)

  apply_chunks-IsSettled :
      (chunks : List (List ChangeRecord)) (start read_total : ℕ) (total : Outcome) (w : World T)
      → IsAt start w
      → IsSettled start read_total
          (length (join_chunks chunks))
          (apply_chunks J D cfg name_of opts name chunks start read_total total w)
  apply_chunks-IsSettled [] start read_total total w at = (at, omega arith, omega arith)
  apply_chunks-IsSettled (ys ∷ chunks) start read_total total w (x, there, cursor) =
      subst
        (λ (n : ℕ).
          IsSettled start read_total n
            (apply_chunks J D cfg name_of opts name (ys ∷ chunks) start read_total total w))
        (sym (length-append ys (join_chunks chunks)))
        (go (run_segments J D cfg name_of opts name start segs 0 total w)
          (run_segments-Ends J D cfg name_of opts name StaysKnown StaysKnown StaysKnown-Rule
            StaysKnown-Falls known-Session set_cursor-StaysKnown poison_cb-StaysKnown start segs 0
            total w)
          (apply_chunks-IsSettled chunks (start + length ys) (read_total + length ys)))
    where
      segs : List ApplySegment
      segs = segment_for_apply ys (is_keymove cfg) opts.txn_enabled

      go :
          (m : World T × Option Outcome)
          → Ends StaysKnown StaysKnown w m
          → ((total' : Outcome) (w'' : World T)
              → IsAt (start + length ys) w''
              → IsSettled
                  (start + length ys)
                  (read_total + length ys)
                  (length (join_chunks chunks))
                  (apply_chunks J D cfg name_of opts name chunks
                    (start + length ys)
                    (read_total + length ys)
                    total'
                    w''))
          → IsSettled start read_total (length ys + length (join_chunks chunks)) (
              go_on m (λ total' w'.
                apply_chunks J D cfg name_of opts name chunks
                  (start + length ys)
                  (read_total + length ys)
                  total'
                  (set_cursor J D cfg name_of opts name (start + length ys) w')))
      go (w', none) stays ih = tt
      go (w', some total') stays ih =
          let w'' = set_cursor J D cfg name_of opts name (start + length ys) w' in
          IsSettled-more start read_total (length ys) (length (join_chunks chunks))
            (apply_chunks J D cfg name_of opts name chunks (start + length ys)
              (read_total + length ys) total' w'')
            (ih total' w'' (set_cursor-IsAt (start + length ys) w' (stays (x, there))))

  -- How the loop over the chunks ends: by an exception, or with `n` records read and the cursor in
  -- the registry behind them; never out of fuel.
  abbrev pub HasSettled :
      ℕ → ℕ → ℕ → World T × Option (Option (Progress J D cfg name_of opts name)) → Type 0
  HasSettled start read_total n (w, none) = Unit
  HasSettled start read_total n (w, some none) = ⊥
  HasSettled start read_total n (w, some (some p)) = IsSettled start read_total n (w, some p)

  pub HasSettled-go_on :
      (start read_total n : ℕ) (m : World T × Option (Progress J D cfg name_of opts name))
      → IsSettled start read_total n m
      → HasSettled start read_total n (go_on m (λ p w'. (w', some (some p))))
  HasSettled-go_on start read_total n (w, none) h = tt
  HasSettled-go_on start read_total n (w, some p) h = h

-- A run that returns leaves in the registry the cursor that it reports, and the cursor is behind
-- exactly the records that it read. The loop does not run out of fuel, with fuel for one more round
-- than records are left; the extract is registered, its cursor is where the loop starts and not
-- behind the purged lines, and a torn fragment may stand at the end of the trail.
pub run_chunks-HasSettled :
    {T : Type 0} (J : Journal) (D : Driver T) (cfg : Config) (name_of : String → String)
    (opts : Options) (name : String) (C : Codec) (purged : ℕ) (last : Option ℕ) (rotate : ℕ)
    (l : Layout) (frag : Text) (clean : NoNewline frag) (rounds fuel start read_total : ℕ)
    (total : Outcome) (w : World T)
    → purged ≤ start
    → length (left_from C purged last rotate l frag clean start) < fuel
    → length (left_from C purged last rotate l frag clean start) < rounds
    → IsAt J D cfg name_of opts name start w
    → (n : ℕ) × (n ≤ length (left_from C purged last rotate l frag clean start))
      × HasSettled J D cfg name_of opts name start read_total n (
          run_chunks J D cfg name_of opts name C fuel
            (trail_of C purged last rotate l frag)
            start
            read_total
            total
            rounds
            w)
run_chunks-HasSettled J D cfg name_of opts name C purged last rotate l frag clean rounds fuel start
      read_total total w h enough rounds_enough at =
    let (chunks, rest, joined, _, _, runs) =
      run_chunks-AppliesChunks J D cfg name_of opts name C purged last rotate l frag clean rounds
        fuel start h enough rounds_enough in
    let whole : length (join_chunks chunks) + length rest
        ≡ length (left_from C purged last rotate l frag clean start) =
      sym (length-append (join_chunks chunks) rest) ∙ ap length joined in
    (
      length (join_chunks chunks),
      omega arith,
      rw (runs read_total total w) (
          HasSettled-go_on J D cfg name_of opts name start read_total (length (join_chunks chunks))
            (apply_chunks J D cfg name_of opts name chunks start read_total total w)
            (apply_chunks-IsSettled J D cfg name_of opts name chunks start read_total total w at)),
    )
