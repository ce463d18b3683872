-- ===== src/Loader/Finished.antt =====
-- A run that warns of no chunk has loaded them all.
use any2helios_db.Prelude.{
  ℕ, zero, suc, ◌≤◌, String, ◌≡◌, refl, ◌∙◌, false, Option, none, some, List, [], ◌∷◌, ◌⊎◌, inl,
  inr, arith,
}
use any2helios_db.Catalog.{Table}
use any2helios_db.Chunking.{Chunk}
use any2helios_db.Ledger.{in_progress, same_state, ChunkRecord, update_where, get_snapshot}
use any2helios_db.Ledger.Chunks.{Mark, is_chunk, stamp, set_chunk_state}
use any2helios_db.Ledger.Chunks.Rows.{All, All-mono, All-update_where, keys, Idle, IdleBut}
use any2helios_db.Loader.{
  Endpoints, Loader, World, find_chunk, find_table, Phase, queued, reading, connected, marked,
  written, broken, finished, in_progress_mark, loaded_mark, failed_mark, load_chunk_range,
  after_connect, after_load, begin_load, step, drive, safe_load, load_each,
}
use any2helios_db.Loader.Held.{Loads, Matched, Sound, Valid, step-Fine}

-- How many effects a thread has before it.
abbrev effects_left : Phase → ℕ
effects_left (queued r) = 5
effects_left (reading r t ch) = 4
effects_left (connected r t ch token) = 3
effects_left (marked r t ch token) = 2
effects_left (written r ch n) = 1
effects_left (broken r ch e) = 1
effects_left finished = 0

module _ (run : String) (name id : String) where
  IdleBut-mark :
      (k : Mark) (rows : List ChunkRecord)
      → Idle run rows
      → IdleBut run name id (update_where (is_chunk run name id) (stamp k) rows)
  IdleBut-mark k rows =
      All-update_where (is_chunk run name id) (stamp k) (λ r idle is. ground (arith, is))
        (λ r idle is. ground (arith, idle)) rows

  Idle-mark :
      (k : Mark) (rows : List ChunkRecord)
      → same_state k.state in_progress ≡ false
      → IdleBut run name id rows
      → Idle run (update_where (is_chunk run name id) (stamp k) rows)
  Idle-mark k rows h =
      All-update_where (is_chunk run name id) (stamp k) (λ r idle is. ground (arith, h))
        (λ r idle is. ground (arith, idle, is)) rows

  IdleBut-Idle : (rows : List ChunkRecord) → Idle run rows → IdleBut run name id rows
  IdleBut-Idle = All-mono (λ r idle. ground (arith, idle))

module _ {S : Type 0} (E : Endpoints S) (cut : String → String) (L : Loader) where
  -- Only the thread's own chunk is in progress, and only while it is at work.
  abbrev Calm : Phase → List ChunkRecord → Type 0
  Calm (queued r) rows = Idle L.run_id rows
  Calm (reading r t ch) rows = Idle L.run_id rows
  Calm (connected r t ch token) rows = Idle L.run_id rows
  Calm (marked r t ch token) rows = IdleBut L.run_id r.table_fqn ch.chunk_id rows
  Calm (written r ch n) rows = IdleBut L.run_id r.table_fqn ch.chunk_id rows
  Calm (broken r ch e) rows = IdleBut L.run_id r.table_fqn ch.chunk_id rows
  Calm finished rows = Idle L.run_id rows

  -- What an effect of a thread comes to.
  abbrev Onward : ℕ → Phase × World S → Type 0
  Onward n next = Calm next.0 next.1.ledger.chunks × (effects_left next.0 ≤ n)

  after_connect-Onward :
      (n : ℕ) (r : ChunkRecord) (ch : Chunk) (next : Phase) (w : World S)
      (found : S × (String ⊎ Unit {0}))
      → 1 ≤ n
      → effects_left next ≤ n
      → Calm next w.ledger.chunks
      → Idle L.run_id w.ledger.chunks
      → Onward n (after_connect r ch next w found)
  after_connect-Onward n r ch next w (s, inl e) h k calm idle =
      (IdleBut-Idle L.run_id r.table_fqn ch.chunk_id w.ledger.chunks idle, h)
  after_connect-Onward n r ch next w (s, inr u) h k calm idle = (calm, k)

  after_load-Onward :
      (r : ChunkRecord) (ch : Chunk) (w : World S) (found : S × (String ⊎ ℕ))
      → IdleBut L.run_id r.table_fqn ch.chunk_id w.ledger.chunks
      → Onward 1 (after_load r ch w found)
  after_load-Onward r ch w (s, inl e) h = (h, omega arith)
  after_load-Onward r ch w (s, inr n) h = (h, omega arith)

  begin_load-Onward :
      (r : ChunkRecord) (ch : Option Chunk) (t : Option Table) (w : World S)
      → Idle L.run_id w.ledger.chunks
      → Onward 4 (begin_load E cut L r ch t w)
  begin_load-Onward r none t w h = (h, omega arith)
  begin_load-Onward r (some ch) none w h = (h, omega arith)
  begin_load-Onward r (some ch) (some t) w h =
      after_connect-Onward 4 r ch (reading r t ch) w (E.connect_source w.target) (omega arith)
        (omega arith) h h

  step-Onward :
      (n : ℕ) (p : Phase) (w : World S)
      → effects_left p ≤ suc n
      → Calm p w.ledger.chunks
      → Onward n (step E cut L p w)
  unfolding step set_chunk_state
  step-Onward n (queued r) w h calm =
      let (calm', k) =
        begin_load-Onward r (find_chunk L.chunks r.chunk_id) (find_table L.tables r.table_fqn) w
          calm in
      (calm', omega (arith, h, k))
  step-Onward n (reading r t ch) w h calm =
      after_connect-Onward n r ch (connected r t ch (get_snapshot L.run_id w.ledger)) w
        (E.connect_target w.target) (omega (arith, h)) (omega (arith, h)) calm calm
  step-Onward n (connected r t ch token) w h calm = (
    IdleBut-mark L.run_id r.table_fqn ch.chunk_id in_progress_mark w.ledger.chunks calm,
    omega (arith, h),
  )
  step-Onward n (marked r t ch token) w h calm =
      let (calm', k) = after_load-Onward r ch w (load_chunk_range E L t ch token w.target) calm in
      (calm', omega (arith, h, k))
  step-Onward n (written r ch m) w h calm = (
    Idle-mark L.run_id r.table_fqn ch.chunk_id (loaded_mark m) w.ledger.chunks refl calm,
    omega arith,
  )
  step-Onward n (broken r ch e) w h calm = (
    Idle-mark L.run_id r.table_fqn ch.chunk_id (failed_mark (cut e)) w.ledger.chunks refl calm,
    omega arith,
  )
  step-Onward n finished w h calm = (calm, omega arith)

  drive-Idle :
      (n : ℕ) (p : Phase) (w : World S)
      → effects_left p ≤ n
      → Calm p w.ledger.chunks
      → ((drive E cut L n p w).0 ≡ finished) × Idle L.run_id (drive E cut L n p w).1.ledger.chunks
  unfolding drive
  drive-Idle zero (queued r) w h calm = ground (arith, h)
  drive-Idle zero (reading r t ch) w h calm = ground (arith, h)
  drive-Idle zero (connected r t ch token) w h calm = ground (arith, h)
  drive-Idle zero (marked r t ch token) w h calm = ground (arith, h)
  drive-Idle zero (written r ch m) w h calm = ground (arith, h)
  drive-Idle zero (broken r ch e) w h calm = ground (arith, h)
  drive-Idle zero finished w h calm = (refl, calm)
  drive-Idle (suc n) p w h calm =
      let (calm', k) = step-Onward n p w h calm in
      drive-Idle n (step E cut L p w).0 (step E cut L p w).1 k calm'

  pub load_each-Idle :
      (rows : List ChunkRecord) (w : World S)
      → Idle L.run_id w.ledger.chunks
      → Idle L.run_id (load_each E cut L rows w).ledger.chunks
  unfolding load_each safe_load
  load_each-Idle [] w h = h
  load_each-Idle (r ∷ rs) w h =
      load_each-Idle rs (safe_load E cut L r w) (drive-Idle 5 (queued r) w (omega arith) h).1

module _ {S : Type 0} (E : Endpoints S) (cut : String → String) (L : Loader)
    (snapshot : Option String) (Holds : String → String → S → Type 0)
    (laws : Loads E L snapshot Holds) where
  -- The world is in order, and the chunks are those of the other world.
  abbrev pub Follows : World S → World S → Type 0
  Follows w0 w = Sound L snapshot Holds w × (keys w.ledger.chunks ≡ keys w0.ledger.chunks)

  drive-Follows :
      (n : ℕ) (p : Phase) (w : World S)
      → Sound L snapshot Holds w
      → Valid L snapshot Holds w.target p
      → Follows w (drive E cut L n p w).1
  unfolding drive
  drive-Follows zero p w h v = (h, refl)
  drive-Follows (suc n) p w h v =
      let (sound, valid, kept, same) = step-Fine E cut L snapshot Holds laws p w h v in
      let (sound', same') = drive-Follows n (step E cut L p w).0 (step E cut L p w).1 sound valid in
      (sound', same' ∙ same)

  pub load_each-Follows :
      (rows : List ChunkRecord) (w : World S)
      → All (Matched L) rows
      → Sound L snapshot Holds w
      → Follows w (load_each E cut L rows w)
  unfolding load_each safe_load
  load_each-Follows [] w planned h = (h, refl)
  load_each-Follows (r ∷ rs) w planned h =
      let (sound, same) = drive-Follows 5 (queued r) w h planned.0 in
      let (sound', same') = load_each-Follows rs (safe_load E cut L r w) planned.1 sound in
      (sound', same' ∙ same)
