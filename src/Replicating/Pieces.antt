-- ===== src/Replicating/Pieces.antt =====
-- What the loop over the chunks hands to the target: transactions and parts, one after the other.
use any2helios_db.Prelude.{
  ℕ, ◌+◌, ◌<◌, ◌≤◌, ◌≡◌, ◌≢◌, refl, sym, ap, ◌∙◌, subst, String, Bool, Option, some, List, [], ◌∷◌,
  ◌++◌, length,
}
use any2helios_db.Record.{ChangeRecord}
use any2helios_db.Record.Codec.{Text, Codec, NoNewline}
use any2helios_db.Trail.Layout.{Layout, trail_of}
use any2helios_db.Apply.{ApplySegment, atomic, barrier, segment_for_apply}
use any2helios_db.Apply.Segments.{flatten, flatten-segment_for_apply}
use any2helios_db.DeadLetter.{Journal}
use any2helios_db.Replicat.{Action, go_on, Driver, Config, Outcome, is_keymove}
use any2helios_db.Replicat.Txn.{apply_txn}
use any2helios_db.Replicat.Barrier.{apply_barriered}
use any2helios_db.Replicat.Barrier.Parts.{
  Part, parts_records, AreParts, run_parts, go_on-cong, cut, parts_records-cut, AreParts-cut,
  barrier_loop-run,
}
use any2helios_db.Replicating.{
  World, Options, target_driver, set_cursor, poison_cb, flush_from, run_segment, run_segments,
  run_chunks, Progress,
}
use any2helios_db.Replicating.Reads.{MayStay, left_from}
use any2helios_db.Replicating.Chunks.{
  cons-ne-nil, apply_chunks, join_chunks, AreChunks, go_on_assoc, run_chunks-AppliesChunks,
}

-- A source transaction, or the parts of a barrier.
pub data Piece : Type 0 where
  txn : List ChangeRecord → Piece
  parts : List Part → Piece

abbrev pub piece_records : Piece → List ChangeRecord
piece_records (txn g) = g
piece_records (parts ps) = parts_records ps

abbrev pub pieces_records : List Piece → List ChangeRecord
pieces_records [] = []
pieces_records (p ∷ ps) = piece_records p ++ pieces_records ps

-- The pieces are the segments, with the barriers cut into parts.
abbrev pub ArePieces : Config → List Piece → List ApplySegment → Type 0
ArePieces cfg [] [] = Unit
ArePieces cfg (txn g ∷ ps) (atomic h ∷ segs) = (g ≡ h) × ArePieces cfg ps segs
ArePieces cfg (parts qs ∷ ps) (barrier run ∷ segs) =
    (parts_records qs ≡ run) × AreParts cfg qs × ArePieces cfg ps segs
ArePieces cfg _ _ = ⊥

pieces_records-flatten :
    (cfg : Config) (ps : List Piece) (segs : List ApplySegment)
    → ArePieces cfg ps segs
    → pieces_records ps ≡ flatten segs
pieces_records-flatten cfg [] [] h = refl
pieces_records-flatten cfg [] (atomic g ∷ segs) h = elim h [ ]
pieces_records-flatten cfg [] (barrier g ∷ segs) h = elim h [ ]
pieces_records-flatten cfg (txn g ∷ ps) [] h = elim h [ ]
pieces_records-flatten cfg (parts qs ∷ ps) [] h = elim h [ ]
pieces_records-flatten cfg (txn g ∷ ps) (barrier run ∷ segs) h = elim h [ ]
pieces_records-flatten cfg (parts qs ∷ ps) (atomic g ∷ segs) h = elim h [ ]
pieces_records-flatten cfg (txn g ∷ ps) (atomic k ∷ segs) h =
    rw (h.0, pieces_records-flatten cfg ps segs h.1) refl
pieces_records-flatten cfg (parts qs ∷ ps) (barrier run ∷ segs) h =
    rw (h.0, pieces_records-flatten cfg ps segs h.2) refl

-- No chunk is empty, and each is cut as `segment_for_apply` and the barrier say.
abbrev pub AreCut : Config → Bool → List (List Piece) → Type 0
AreCut cfg enabled [] = Unit
AreCut cfg enabled (ps ∷ chunks) =
    (pieces_records ps ≢ [])
    × ArePieces cfg ps (segment_for_apply (pieces_records ps) (is_keymove cfg) enabled)
    × AreCut cfg enabled chunks

abbrev pub all_records : List (List Piece) → List ChangeRecord
all_records [] = []
all_records (ps ∷ chunks) = pieces_records ps ++ all_records chunks

module _ {T : Type 0} (J : Journal) (D : Driver T) (cfg : Config) (name_of : String → String)
    (opts : Options) (name : String) where
  abbrev cursor_to : ℕ → World T → World T
  cursor_to = set_cursor J D cfg name_of opts name

  -- A transaction goes to the target whole, then the cursor is set behind it; a barrier goes part by
  -- part, with the cursor behind each.
  abbrev pub apply_pieces : ℕ → List Piece → ℕ → Outcome → Action (World T) Outcome
  apply_pieces start [] consumed total w = (w, some total)
  apply_pieces start (txn g ∷ ps) consumed total w =
      let after = consumed + length g in
      go_on
        (apply_txn (target_driver D) cfg name_of g opts.poison_retries
          (some (poison_cb J D cfg name_of opts name start)) consumed w)
        (λ out w'.
          apply_pieces start ps after (total.0 + out.0, total.1 ++ out.1)
            (cursor_to (start + after) w'))
  apply_pieces start (parts qs ∷ ps) consumed total w =
      go_on
        (run_parts (target_driver D) cfg (λ n. cursor_to ((start + consumed) + n))
          opts.poison_retries (some (poison_cb J D cfg name_of opts name (start + consumed))) qs 0
          (0, []) w)
        (λ out.
          apply_pieces start ps (consumed + length (parts_records qs))
            (total.0 + out.0, total.1 ++ out.1))

  -- The chunks one after the other, each with its cursor.
  abbrev pub apply_cut :
      List (List Piece) → ℕ → ℕ → Outcome → Action (World T) (Progress J D cfg name_of opts name)
  apply_cut [] start read_total total w = (w, some (total, read_total, start))
  apply_cut (ps ∷ chunks) start read_total total w =
      let next = start + length (pieces_records ps) in
      go_on (apply_pieces start ps 0 total w) (λ total' w'.
        apply_cut chunks next (read_total + length (pieces_records ps)) total' (cursor_to next w'))

  -- The segments as pieces.
  abbrev CutsTo : List ApplySegment → Type 0
  CutsTo segs =
      (ps : List Piece) × ArePieces cfg ps segs
      × ((start consumed : ℕ) (total : Outcome) (w : World T)
          → run_segments J D cfg name_of opts name start segs consumed total w
            ≡ apply_pieces start ps consumed total w)

  segments_cut : (segs : List ApplySegment) → CutsTo segs
  unfolding run_segments run_segment flush_from apply_barriered
  segments_cut [] = ([], tt, λ start consumed total w. refl)
  segments_cut (atomic g ∷ segs) =
      let (ps, ok, same) = segments_cut segs in
      (
        txn g ∷ ps,
        (refl, ok),
        λ start consumed total w.
            let tried : World T × Option Outcome =
              apply_txn (target_driver D) cfg name_of g opts.poison_retries
                (some (poison_cb J D cfg name_of opts name start)) consumed w in
            go_on_assoc tried _ _
            ∙ go_on-cong tried _ _ (λ out w'.
              same start (consumed + length g) (total.0 + out.0, total.1 ++ out.1)
                (cursor_to (start + (consumed + length g)) w')),
      )
  segments_cut (barrier run ∷ segs) =
      let (ps, ok, same) = segments_cut segs in
      let qs : List Part = cut cfg run [] in
      let all : parts_records qs ≡ run = parts_records-cut cfg run [] in
      (
        parts qs ∷ ps,
        (all, AreParts-cut cfg run [] tt, ok),
        λ start consumed total w.
            let to : ℕ → World T → World T = λ n. cursor_to ((start + consumed) + n) in
            let poison = some (poison_cb J D cfg name_of opts name (start + consumed)) in
            let ran : World T × Option Outcome =
              run_parts (target_driver D) cfg to opts.poison_retries poison qs 0 (0, []) w in
            let cuts =
              barrier_loop-run (target_driver D) cfg to opts.poison_retries poison run [] 0 (0, [])
                w in
            rw (apply_barriered, cuts, all)
              (go_on-cong ran _ _ (λ out w'.
                same start (consumed + length run) (total.0 + out.0, total.1 ++ out.1) w')),
      )

  -- The chunk as pieces.
  chunk_cut :
      (ys : List ChangeRecord)
      → (ps : List Piece) × (pieces_records ps ≡ ys)
        × ArePieces cfg ps (segment_for_apply ys (is_keymove cfg) opts.txn_enabled)
        × ((start : ℕ) (total : Outcome) (w : World T)
            → run_segments J D cfg name_of opts name start
                (segment_for_apply ys (is_keymove cfg) opts.txn_enabled)
                0
                total
                w
              ≡ apply_pieces start ps 0 total w)
  chunk_cut ys =
      let segs = segment_for_apply ys (is_keymove cfg) opts.txn_enabled in
      let (ps, ok, same) = segments_cut segs in
      (
        ps,
        pieces_records-flatten cfg ps segs ok
            ∙ flatten-segment_for_apply ys (is_keymove cfg) opts.txn_enabled,
        ok,
        λ start total w. same start 0 total w,
      )

  chunks_cut :
      (chunks : List (List ChangeRecord))
      → AreChunks chunks
      → (cuts : List (List Piece)) × (all_records cuts ≡ join_chunks chunks)
        × AreCut cfg opts.txn_enabled cuts
        × ((start read_total : ℕ) (total : Outcome) (w : World T)
            → apply_chunks J D cfg name_of opts name chunks start read_total total w
              ≡ apply_cut cuts start read_total total w)
  chunks_cut [] h = ([], refl, tt, λ start read_total total w. refl)
  chunks_cut ([] ∷ chunks) h = elim h [ ]
  chunks_cut ((r ∷ rs) ∷ chunks) h =
      let (ps, same, ok, runs) = chunk_cut (r ∷ rs) in
      let (cuts, joined, are, later) = chunks_cut chunks h in
      (
        ps ∷ cuts,
        rw (same, joined) refl,
        (
          (λ e. cons-ne-nil r rs (sym same ∙ e)),
          subst
              (λ (t : List ChangeRecord).
                ArePieces cfg ps (segment_for_apply t (is_keymove cfg) opts.txn_enabled))
              (sym same) ok,
          are,
        ),
        λ start read_total total w.
            let ran : World T × Option Outcome = apply_pieces start ps 0 total w in
            let n : length (pieces_records ps) ≡ length (r ∷ rs) = ap length same in
            rw (runs start total w, n)
              (go_on-cong ran _ _ (λ total' w'.
                later (start + length (r ∷ rs)) (read_total + length (r ∷ rs)) total'
                  (cursor_to (start + length (r ∷ rs)) w'))),
      )

module _ {T : Type 0} (J : Journal) (D : Driver T) (cfg : Config) (name_of : String → String)
    (opts : Options) (name : String) (C : Codec) (purged : ℕ) (last : Option ℕ) (rotate : ℕ)
    (l : Layout) (frag : Text) (clean : NoNewline frag) (rounds : ℕ) where
  -- What a loop of that fuel does from that line on.
  abbrev pub AppliesPieces : ℕ → ℕ → Type 0
  AppliesPieces fuel start =
      (cuts : List (List Piece)) × (rest : List ChangeRecord) × (all_records cuts ++ rest
        ≡ left_from C purged last rotate l frag clean start)
      × AreCut cfg opts.txn_enabled cuts
      × MayStay opts.txn_enabled rest
      × ((read_total : ℕ) (total : Outcome) (w : World T)
          → run_chunks J D cfg name_of opts name C fuel (trail_of C purged last rotate l frag) start
              read_total total rounds w
            ≡ go_on (apply_cut J D cfg name_of opts name cuts start read_total total w)
                (λ p w'. (w', some (some p))))

-- A run ends, and it hands the trail to the target in its order, each record once. With fuel for one
-- more round than records are left, the loop over the chunks never runs out of fuel: from every
-- state it is one and the same sequence of chunks, and each chunk one of pieces, until an exception
-- ends it. A piece is a source transaction, which goes to `apply_txn` whole, with the cursor set
-- behind it, or the parts of a barrier, each of which goes to `apply` or to the batch that isolates
-- poison, with the cursor set behind each; behind a chunk the cursor is set once more. No chunk is
-- empty; its pieces are those of `segment_for_apply`, and the parts those of the barrier. One behind
-- the other the pieces are the records behind the cursor, less a rest: a transaction that has not
-- ended, where atomic apply is on, and nothing where it is off. The cursor is not behind the purged
-- lines, and a torn fragment may stand at the end of the trail.
pub run_chunks-AppliesPieces :
    {T : Type 0} (J : Journal) (D : Driver T) (cfg : Config) (name_of : String → String)
    (opts : Options) (name : String) (C : Codec) (purged : ℕ) (last : Option ℕ) (rotate : ℕ)
    (l : Layout) (frag : Text) (clean : NoNewline frag) (rounds fuel start : ℕ)
    → purged ≤ start
    → length (left_from C purged last rotate l frag clean start) < fuel
    → length (left_from C purged last rotate l frag clean start) < rounds
    → AppliesPieces J D cfg name_of opts name C purged last rotate l frag clean rounds fuel start
run_chunks-AppliesPieces J D cfg name_of opts name C purged last rotate l frag clean rounds fuel
      start h enough rounds_enough =
    let (chunks, rest, joined, ok, stays, runs) =
      run_chunks-AppliesChunks J D cfg name_of opts name C purged last rotate l frag clean rounds
        fuel start h enough rounds_enough in
    let (cuts, all, are, same) = chunks_cut J D cfg name_of opts name chunks ok in
    (
      cuts,
      rest,
      rw all joined,
      are,
      stays,
      λ read_total total w. rw (runs read_total total w, same start read_total total w) refl,
    )
