-- ===== src/Loader/Complete.antt =====
-- A run in which no call fails loads every chunk.
use any2helios_db.Prelude.{
  str_eq, true, ℕ, String, ◌≡◌, refl, sym, ap, subst, Bool, false, ◌&&◌, Option, none, some, List,
  [], ◌∷◌, inl, inr, arith, ltb, Bool-cases, map,
}
use any2helios_db.Catalog.{Table}
use any2helios_db.Chunking.{Chunk}
use any2helios_db.Ledger.{ChunkRecord}
use any2helios_db.Ledger.Chunks.{pending_chunks}
use any2helios_db.Ledger.Chunks.Rows.{All, keys}
use any2helios_db.Loader.{
  Endpoints, Loader, World, find_chunk, find_table, load_pending, run_passes, not_loaded,
}
use any2helios_db.Loader.Held.{Loads, Sound}
use any2helios_db.Loader.Succeeds.{Succeeds, InPlan, load_pending_ok}
use any2helios_db.Loader.Whole.{HoldsAll, load_pending-Follows, run_passes-HoldsAll}

module _ (L : Loader) where
  abbrev KeysInPlan : List (String × (String × String)) → Type 0
  KeysInPlan [] = Unit
  KeysInPlan ((run, (name, id)) ∷ rest) =
      (str_eq run L.run_id ≡ true
        → (ch : Chunk) × (find_chunk L.chunks id ≡ some ch)
          × (t : Table) × (find_table L.tables name ≡ some t))
      × KeysInPlan rest

module _ {S : Type 0} (E : Endpoints S) (cut : String → String) (L : Loader) (ok : Succeeds E) where
  KeysInPlan-keys :
      (rows : List ChunkRecord) → All (InPlan E cut L ok) rows → KeysInPlan L (keys rows)
  KeysInPlan-keys [] h = tt
  KeysInPlan-keys (r ∷ rs) h = (h.0, KeysInPlan-keys rs h.1)

  InPlan-keys : (rows : List ChunkRecord) → KeysInPlan L (keys rows) → All (InPlan E cut L ok) rows
  InPlan-keys [] h = tt
  InPlan-keys (r ∷ rs) h = (h.0, InPlan-keys rs h.1)

  module _ (snapshot : Option String) (Holds : String → String → S → Type 0)
      (laws : Loads E L snapshot Holds) (before : String → String → Bool) where
    none_waits :
        (schedule : List ℕ) (w : World S)
        → Sound L snapshot Holds w
        → All (InPlan E cut L ok) w.ledger.chunks
        → pending_chunks before L.run_id none (run_passes E cut L before schedule w).ledger ≡ []
    unfolding run_passes
    none_waits schedule w h planned =
        let w0 : World S = record w { errors = [] } in
        let w1 = load_pending E cut L before L.concurrent_writes schedule w0 in
        let (sound, same) =
          load_pending-Follows E cut L snapshot Holds laws before L.concurrent_writes schedule w0
            h in
        let planned1 : All (InPlan E cut L ok) w1.ledger.chunks =
          InPlan-keys w1.ledger.chunks
            (subst (KeysInPlan L) (sym same) (KeysInPlan-keys w.ledger.chunks planned)) in
        elim (Bool-cases (ltb 1 L.parallelism && L.concurrent_writes)) [
          | inl is ↦ rw is (load_pending_ok E cut L ok before false [] w1 refl planned1)
          | inr is ↦ rw is (
              load_pending_ok E cut L ok before L.concurrent_writes schedule w0 (ground (arith, is))
                planned)
        ]

    -- Where the calls keep to `Loads` and none of them fails, the world before is sound, and the plan
    -- has every chunk that the ledger has of the run: a run, its threads in any order, warns of no
    -- chunk, and the target holds every chunk of the run.
    pub run_passes_complete :
        (schedule : List ℕ) (w : World S)
        → Sound L snapshot Holds w
        → All (InPlan E cut L ok) w.ledger.chunks
        → (not_loaded E cut L before (run_passes E cut L before schedule w) ≡ [])
          × HoldsAll E cut L snapshot Holds laws before
              (run_passes E cut L before schedule w).target
              (keys w.ledger.chunks)
    unfolding not_loaded
    run_passes_complete schedule w h planned =
        let none_left : not_loaded E cut L before (run_passes E cut L before schedule w) ≡ [] =
          ap (map _) (none_waits schedule w h planned) in
        (none_left, run_passes-HoldsAll E cut L snapshot Holds laws before schedule w h none_left)
