-- ===== src/Loader/Whole.antt =====
-- A run that warns of no chunk has loaded them all.
use any2helios_db.Prelude.{
  ℕ, String, ◌≡◌, refl, ◌∙◌, subst, Bool, true, false, ◌&&◌, Option, none, List, [], ◌∷◌, inl, inr,
  arith, ltb, Bool-cases, map, length, str_eq,
}
use any2helios_db.Ledger.{ChunkRecord}
use any2helios_db.Ledger.Chunks.{of_run, is_done, recover, pending_chunks}
use any2helios_db.Ledger.Chunks.Rows.{All, keys, Idle, Idle-recover, is_done-Idle}
use any2helios_db.Loader.{
  Endpoints, Loader, World, queued, recovered, load_pending, run_passes, not_loaded,
}
use any2helios_db.Loader.Held.{Loads, Matched, HeldIfDone, Sound}
use any2helios_db.Loader.Crash.{
  recovered-Sound, pending_chunks-Matched, All-queued, run_schedule-InOrder,
}
use any2helios_db.Loader.Finished.{Follows, load_each-Idle, load_each-Follows}

module _ {S : Type 0} (E : Endpoints S) (cut : String → String) (L : Loader)
    (snapshot : Option String) (Holds : String → String → S → Type 0)
    (laws : Loads E L snapshot Holds) (before : String → String → Bool) where
  pub load_pending-Follows :
      (parallel : Bool) (schedule : List ℕ) (w : World S)
      → Sound L snapshot Holds w
      → Follows E cut L snapshot Holds laws w (load_pending E cut L before parallel schedule w)
  unfolding load_pending
  load_pending-Follows parallel schedule w h =
      let (sound, same) = recovered-Sound L snapshot Holds w h in
      let w1 = recovered L w in
      let waiting = pending_chunks before L.run_id none w1.ledger in
      let planned : All (Matched L) waiting =
        pending_chunks-Matched L snapshot Holds before w1 sound in
      elim (Bool-cases (parallel && (ltb 1 L.parallelism && ltb 1 (length waiting)))) [
        | inl is ↦
            let (sound', valid, same') =
              run_schedule-InOrder E cut L snapshot Holds laws schedule (map queued waiting) w1
                sound (All-queued L snapshot Holds w1.target waiting planned) in
            rw is (sound', same' ∙ same)
        | inr is ↦
            let (sound', same') =
              load_each-Follows E cut L snapshot Holds laws waiting w1 planned sound in
            rw is (sound', same' ∙ same)
      ]

  -- A pass that takes no threads leaves no chunk in progress.
  load_pending-Idle :
      (parallel : Bool) (schedule : List ℕ) (w : World S)
      → (parallel && ltb 1 L.parallelism) ≡ false
      → Idle L.run_id (load_pending E cut L before parallel schedule w).ledger.chunks
  unfolding load_pending recovered recover
  load_pending-Idle parallel schedule w h =
      let w1 = recovered L w in
      let waiting = pending_chunks before L.run_id none w1.ledger in
      let serial : (parallel && (ltb 1 L.parallelism && ltb 1 (length waiting))) ≡ false =
        ground (arith, h) in
      rw serial (load_each-Idle E cut L waiting w1 (Idle-recover L.run_id w.ledger.chunks))

  pub run_passes-Follows :
      (schedule : List ℕ) (w : World S)
      → Sound L snapshot Holds w
      → Follows E cut L snapshot Holds laws w (run_passes E cut L before schedule w)
  unfolding run_passes
  run_passes-Follows schedule w h =
      let w0 : World S = record w { errors = [] } in
      let w1 = load_pending E cut L before L.concurrent_writes schedule w0 in
      let (sound, same) = load_pending-Follows L.concurrent_writes schedule w0 h in
      elim (Bool-cases (ltb 1 L.parallelism && L.concurrent_writes)) [
        | inl is ↦
            let (sound', same') = load_pending-Follows false [] w1 sound in
            rw is (sound', same' ∙ same)
        | inr is ↦ rw is (sound, same)
      ]

  run_passes-Idle :
      (schedule : List ℕ) (w : World S)
      → Idle L.run_id (run_passes E cut L before schedule w).ledger.chunks
  unfolding run_passes
  run_passes-Idle schedule w =
      let w0 : World S = record w { errors = [] } in
      let w1 = load_pending E cut L before L.concurrent_writes schedule w0 in
      elim (Bool-cases (ltb 1 L.parallelism && L.concurrent_writes)) [
        | inl is ↦ rw is (load_pending-Idle false [] w1 refl)
        | inr is ↦ rw is (load_pending-Idle L.concurrent_writes schedule w0 (ground (arith, is)))
      ]

  -- The target holds the chunks of these keys that are of the run.
  abbrev pub HoldsAll : S → List (String × (String × String)) → Type 0
  HoldsAll s [] = Unit
  HoldsAll s ((run, (name, id)) ∷ rest) =
      (str_eq run L.run_id ≡ true → Holds name id s) × HoldsAll s rest

  HoldsAll-keys :
      (s : S) (rows : List ChunkRecord)
      → All (λ (r : ChunkRecord). of_run L.run_id r ≡ true → is_done r.state ≡ true) rows
      → All (HeldIfDone L snapshot Holds s) rows
      → HoldsAll s (keys rows)
  HoldsAll-keys s [] done held = tt
  HoldsAll-keys s (r ∷ rs) done held =
      (λ of. held.0 of (done.0 of), HoldsAll-keys s rs done.1 held.1)

  nil_of_map : {A B : Type 0} (f : A → B) (xs : List A) → map f xs ≡ [] → xs ≡ []
  nil_of_map f [] h = refl
  nil_of_map f (x ∷ xs) h = ground (arith, h)

  -- Where the calls keep to `Loads` and the world before is sound: if a run, its threads in any order,
  -- ends without a warning that a chunk is not loaded, then the target holds every chunk of the run
  -- that the ledger had before it.
  pub run_passes-HoldsAll :
      (schedule : List ℕ) (w : World S)
      → Sound L snapshot Holds w
      → not_loaded E cut L before (run_passes E cut L before schedule w) ≡ []
      → HoldsAll (run_passes E cut L before schedule w).target (keys w.ledger.chunks)
  unfolding not_loaded pending_chunks
  run_passes-HoldsAll schedule w h none_left =
      let w' = run_passes E cut L before schedule w in
      let (sound, same) = run_passes-Follows schedule w h in
      let none_waits = nil_of_map _ (pending_chunks before L.run_id none w'.ledger) none_left in
      let done =
        is_done-Idle L.run_id before w'.ledger.chunks (run_passes-Idle schedule w) none_waits in
      subst (HoldsAll w'.target) same (HoldsAll-keys w'.target w'.ledger.chunks done sound.2)
