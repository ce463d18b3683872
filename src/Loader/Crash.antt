-- ===== src/Loader/Crash.antt =====
-- Every state that crashes, restarts and threads in any order lead to.
use any2helios_db.Prelude.{
  ℕ, zero, suc, String, ◌≡◌, refl, ◌∙◌, Bool, ◌&&◌, Option, none, List, [], ◌∷◌, map, arith,
}
use any2helios_db.Ledger.{pending, ChunkRecord, select_where, get_snapshot}
use any2helios_db.Ledger.Chunks.{is_interrupted, is_waiting, in_table, recover, pending_chunks}
use any2helios_db.Ledger.Chunks.Rows.{
  All, All-mono, All-select_passing, All-update_where, All-order_rows, keys, keys-update_where,
}
use any2helios_db.Loader.{
  Endpoints, Loader, World, Phase, queued, step, step_at, run_schedule, recovered,
}
use any2helios_db.Loader.Held.{
  Loads, Matched, Planned, HeldIfDone, Sound, Kept, Valid, Valid-Kept, step-Fine,
}

-- The threads and the world that a world leads to. A pass begins from any state, so that the threads
-- that were there are gone with the process that they ran in; the errors of the process may be
-- anything.
pub data Reached {S : Type 0} (E : Endpoints S) (cut : String → String) (L : Loader)
    (before : String → String → Bool) (w0 : World S) : List Phase → World S → Type 0 where
  starts : Reached E cut L before w0 [] w0
  begins :
      {ps : List Phase} {w : World S}
      → Reached E cut L before w0 ps w
      → (errors : List (String × String))
      → Reached E cut L before w0
          (map queued (pending_chunks before L.run_id none (recovered L w).ledger))
          (record (recovered L w) { errors = errors })
  moves :
      {ps : List Phase} {w : World S}
      → Reached E cut L before w0 ps w
      → (i : ℕ) → Reached E cut L before w0 (step_at E cut L i ps w).0 (step_at E cut L i ps w).1

module _ {S : Type 0} (L : Loader) (snapshot : Option String)
    (Holds : String → String → S → Type 0) where
  pub recovered-Sound :
      (w : World S)
      → Sound L snapshot Holds w
      → Sound L snapshot Holds (recovered L w)
        × (keys (recovered L w).ledger.chunks ≡ keys w.ledger.chunks)
  unfolding recovered recover get_snapshot
  recovered-Sound w h =
      let test = is_interrupted L.run_id in
      let change = λ (r : ChunkRecord). record r { state = pending } in
      (
        (
          h.0,
          All-update_where test change (λ r planned is. planned) (λ r planned is. planned)
              w.ledger.chunks h.1,
          All-update_where test change (λ r held is of done. ground (arith, done))
              (λ r held is. held) w.ledger.chunks h.2,
        ),
        keys-update_where test change (λ r. (refl, refl, refl)) w.ledger.chunks,
      )

  pub All-queued :
      (s : S) (rows : List ChunkRecord)
      → All (Matched L) rows
      → All (Valid L snapshot Holds s) (map queued rows)
  All-queued s [] h = tt
  All-queued s (r ∷ rs) h = (h.0, All-queued s rs h.1)

  pub pending_chunks-Matched :
      (before : String → String → Bool) (w : World S)
      → Sound L snapshot Holds w
      → All (Matched L) (pending_chunks before L.run_id none w.ledger)
  unfolding pending_chunks
  pending_chunks-Matched before w h =
      let test = λ (r : ChunkRecord). is_waiting L.run_id r && in_table none r in
      All-order_rows before (Matched L) (select_where test w.ledger.chunks) (
        All-select_passing {P = Planned L} test (λ r planned is. planned (ground (arith, is)))
          w.ledger.chunks h.1)

module _ {S : Type 0} (E : Endpoints S) (cut : String → String) (L : Loader)
    (snapshot : Option String) (Holds : String → String → S → Type 0)
    (laws : Loads E L snapshot Holds) where
  -- The threads and the world, all in order, with the rows that the ledger had.
  abbrev pub InOrder : World S → List Phase → World S → Type 0
  InOrder w0 ps w =
      Sound L snapshot Holds w
      × All (Valid L snapshot Holds w.target) ps
      × (keys w.ledger.chunks ≡ keys w0.ledger.chunks)

  step_at-InOrder :
      (i : ℕ) (ps : List Phase) (w : World S)
      → Sound L snapshot Holds w
      → All (Valid L snapshot Holds w.target) ps
      → InOrder w (step_at E cut L i ps w).0 (step_at E cut L i ps w).1
        × Kept L snapshot Holds w.target (step_at E cut L i ps w).1.target
  unfolding step_at
  step_at-InOrder i [] w h v = ((h, tt, refl), λ name id held. held)
  step_at-InOrder zero (p ∷ ps) w h v =
      let (sound, valid, kept, same) = step-Fine E cut L snapshot Holds laws p w h v.0 in
      (
        (
          sound,
          (
            valid,
            All-mono (λ q. Valid-Kept L snapshot Holds w.target (step E cut L p w).1.target kept q)
                ps v.1,
          ),
          same,
        ),
        kept,
      )
  step_at-InOrder (suc i) (p ∷ ps) w h v =
      let ((sound, valid, same), kept) = step_at-InOrder i ps w h v.1 in
      (
        (
          sound,
          (
            Valid-Kept L snapshot Holds w.target (step_at E cut L i ps w).1.target kept p v.0,
            valid,
          ),
          same,
        ),
        kept,
      )

  pub run_schedule-InOrder :
      (is : List ℕ) (ps : List Phase) (w : World S)
      → Sound L snapshot Holds w
      → All (Valid L snapshot Holds w.target) ps
      → InOrder w (run_schedule E cut L is ps w).0 (run_schedule E cut L is ps w).1
  unfolding run_schedule
  run_schedule-InOrder [] ps w h v = (h, v, refl)
  run_schedule-InOrder (i ∷ is) ps w h v =
      let (sound, valid, same) = (step_at-InOrder i ps w h v).0 in
      let (sound', valid', same') =
        run_schedule-InOrder is (step_at E cut L i ps w).0 (step_at E cut L i ps w).1 sound valid in
      (sound', valid', same' ∙ same)

  module _ (before : String → String → Bool) where
    Reached-InOrder :
        (w0 : World S)
        → Sound L snapshot Holds w0
        → (ps : List Phase) (w : World S) → Reached E cut L before w0 ps w
        → InOrder w0 ps w
    Reached-InOrder w0 h [] w starts = (h, tt, refl)
    Reached-InOrder w0 h _ _ (begins {ps} {w} reached errors) =
        let (sound, valid, same) = Reached-InOrder w0 h ps w reached in
        let (sound', same') = recovered-Sound L snapshot Holds w sound in
        (
          sound',
          All-queued L snapshot Holds (recovered L w).target
              (pending_chunks before L.run_id none (recovered L w).ledger)
              (pending_chunks-Matched L snapshot Holds before (recovered L w) sound'),
          same' ∙ same,
        )
    Reached-InOrder w0 h _ _ (moves {ps} {w} reached i) =
        let (sound, valid, same) = Reached-InOrder w0 h ps w reached in
        let (sound', valid', same') = (step_at-InOrder i ps w sound valid).0 in
        (sound', valid', same' ∙ same)

    -- Where the calls keep to `Loads`, from a sound world, whatever the threads did in whatever order
    -- and however often the process died and began again: every chunk of the run that the ledger calls
    -- done is held by the target, and the ledger still has the chunks that it had.
    pub HeldIfDone-Reached :
        (w0 : World S)
        → Sound L snapshot Holds w0
        → (ps : List Phase) (w : World S) → Reached E cut L before w0 ps w
        → All (HeldIfDone L snapshot Holds w.target) w.ledger.chunks
          × (keys w.ledger.chunks ≡ keys w0.ledger.chunks)
    HeldIfDone-Reached w0 h ps w reached =
        let (sound, valid, same) = Reached-InOrder w0 h ps w reached in (sound.2, same)
