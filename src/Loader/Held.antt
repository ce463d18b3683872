-- ===== src/Loader/Held.antt =====
-- A chunk that the ledger calls loaded is held by the target, at every effect of every thread.
use mathlib.Core.Option.{some-injective}
use any2helios_db.Prelude.{
  ℕ, String, ◌≡◌, refl, sym, ap, ◌∙◌, subst, true, Option, none, some, List, [], ◌∷◌, ◌⊎◌, inl, inr,
  str_eq, eq_iff, arith, Bool-cases,
}
use any2helios_db.Catalog.{Table, fqn}
use any2helios_db.Chunking.{Chunk}
use any2helios_db.Ledger.{ChunkRecord, get_snapshot}
use any2helios_db.Ledger.Chunks.{Mark, of_run, is_chunk, is_done, stamp, set_chunk_state}
use any2helios_db.Ledger.Chunks.Rows.{
  All, All-mono, All-update_where, keys, keys-update_where, is_chunk_parts,
}
use any2helios_db.Loader.{
  Endpoints, Loader, World, find_chunk, find_table, Phase, queued, reading, connected, marked,
  written, broken, finished, in_progress_mark, loaded_mark, failed_mark, mark_row, load_chunk_range,
  after_connect, after_load, begin_load, step,
}

pub chunk_id-find_chunk :
    (cs : List Chunk) (id : String) (ch : Chunk) → find_chunk cs id ≡ some ch → ch.chunk_id ≡ id
unfolding find_chunk
chunk_id-find_chunk [] id ch h = ground (arith, h)
chunk_id-find_chunk (c ∷ cs) id ch h = elim (Bool-cases (str_eq c.chunk_id id)) [
  | inl is ↦
      let e : some c ≡ some ch = sym (rw is refl) ∙ h in
      ap (λ (d : Chunk). d.chunk_id) (sym (some-injective c ch e)) ∙ (eq_iff c.chunk_id id).0 is
  | inr is ↦
      let e : find_chunk cs id ≡ some ch = sym (rw is refl) ∙ h in chunk_id-find_chunk cs id ch e
]

fqn-find_table :
    (ts : List Table) (name : String) (t : Table) → find_table ts name ≡ some t → fqn t ≡ name
unfolding find_table
fqn-find_table [] name t h = ground (arith, h)
fqn-find_table (c ∷ ts) name t h = elim (Bool-cases (str_eq (fqn c) name)) [
  | inl is ↦
      let e : some c ≡ some t = sym (rw is refl) ∙ h in
      ap fqn (sym (some-injective c t e)) ∙ (eq_iff (fqn c) name).0 is
  | inr is ↦
      let e : find_table ts name ≡ some t = sym (rw is refl) ∙ h in fqn-find_table ts name t e
]

-- What the loader relies on of the target. `Holds name id s`: the target holds, for the source table
-- of that name, the rows of the chunk of that id as the snapshot has them.
pub record Loads {S : Type 0} (E : Endpoints S) (L : Loader) (snapshot : Option String)
    (Holds : String → String → S → Type 0) : Type 0 where
  -- A connection changes nothing.
  pub source_keeps :
      (name id : String) (s : S) → Holds name id s → Holds name id (E.connect_source s).0
  pub target_keeps :
      (name id : String) (s : S) → Holds name id s → Holds name id (E.connect_target s).0
  -- A chunk that is loaded again, or whose load fails and is rolled back, takes no other chunk away.
  pub load_keeps :
      (ch : Chunk)
      → find_chunk L.chunks ch.chunk_id ≡ some ch
      → (name id : String) (s : S) → Holds name id s
      → Holds name id (load_chunk_range E L ch.table ch snapshot s).0
  -- A load that returns has loaded the range.
  pub load_holds :
      (ch : Chunk)
      → find_chunk L.chunks ch.chunk_id ≡ some ch
      → (n : ℕ) (s : S) → (load_chunk_range E L ch.table ch snapshot s).1 ≡ inr n
      → Holds (fqn ch.table) ch.chunk_id (load_chunk_range E L ch.table ch snapshot s).0

module _ (L : Loader) where
  -- The plan agrees with the row: the chunk of its id is a chunk of the table of its name.
  abbrev pub Matched : ChunkRecord → Type 0
  Matched r =
      (ch : Chunk) (t : Table)
      → find_chunk L.chunks r.chunk_id ≡ some ch
      → find_table L.tables r.table_fqn ≡ some t
      → ch.table ≡ t

  -- It does where the row is of the run.
  abbrev pub Planned : ChunkRecord → Type 0
  Planned r = of_run L.run_id r ≡ true → Matched r

module _ {S : Type 0} (L : Loader) (snapshot : Option String)
    (Holds : String → String → S → Type 0) where
  -- A done row of the run is held.
  abbrev pub HeldIfDone : S → ChunkRecord → Type 0
  HeldIfDone s r =
      of_run L.run_id r ≡ true → is_done r.state ≡ true → Holds r.table_fqn r.chunk_id s

  -- The ledger agrees with the plan, with the target and with the snapshot.
  abbrev pub Sound : World S → Type 0
  Sound w =
      (get_snapshot L.run_id w.ledger ≡ snapshot)
      × All (Planned L) w.ledger.chunks
      × All (HeldIfDone w.target) w.ledger.chunks

  abbrev pub Kept : S → S → Type 0
  Kept s s' = (name id : String) → Holds name id s → Holds name id s'

  abbrev Known : ChunkRecord → Table → Chunk → Type 0
  Known r t ch =
      (find_chunk L.chunks ch.chunk_id ≡ some ch) × (ch.table ≡ t) × (fqn t ≡ r.table_fqn)

  -- What holds of a thread.
  abbrev pub Valid : S → Phase → Type 0
  Valid s (queued r) = Matched L r
  Valid s (reading r t ch) = Known r t ch
  Valid s (connected r t ch token) = Known r t ch × (token ≡ snapshot)
  Valid s (marked r t ch token) = Known r t ch × (token ≡ snapshot)
  Valid s (written r ch n) = Holds r.table_fqn ch.chunk_id s
  Valid s (broken r ch e) = Unit
  Valid s finished = Unit

  pub Valid-Kept : (s s' : S) → Kept s s' → (p : Phase) → Valid s p → Valid s' p
  Valid-Kept s s' k (queued r) h = h
  Valid-Kept s s' k (reading r t ch) h = h
  Valid-Kept s s' k (connected r t ch token) h = h
  Valid-Kept s s' k (marked r t ch token) h = h
  Valid-Kept s s' k (written r ch n) h = k r.table_fqn ch.chunk_id h
  Valid-Kept s s' k (broken r ch e) h = h
  Valid-Kept s s' k finished h = h

  -- What an effect keeps.
  abbrev Fine : World S → Phase × World S → Type 0
  Fine w next =
      Sound next.1
      × Valid next.1.target next.0
      × Kept w.target next.1.target
      × (keys next.1.ledger.chunks ≡ keys w.ledger.chunks)

  Sound-Kept : (w : World S) (s : S) → Sound w → Kept w.target s → Sound (record w { target = s })
  Sound-Kept w s h k = (
    h.0,
    h.1,
    All-mono (λ r held of done. k r.table_fqn r.chunk_id (held of done)) w.ledger.chunks h.2,
  )

module _ {S : Type 0} (E : Endpoints S) (cut : String → String) (L : Loader)
    (snapshot : Option String) (Holds : String → String → S → Type 0)
    (laws : Loads E L snapshot Holds) where
  after_connect-Fine :
      (r : ChunkRecord) (ch : Chunk) (next : Phase) (w : World S) (found : S × (String ⊎ Unit {0}))
      → Sound L snapshot Holds w
      → Kept L snapshot Holds w.target found.0
      → Valid L snapshot Holds found.0 next
      → Fine L snapshot Holds w (after_connect r ch next w found)
  after_connect-Fine r ch next w (s, inl e) h k v =
      (Sound-Kept L snapshot Holds w s h k, tt, k, refl)
  after_connect-Fine r ch next w (s, inr u) h k v =
      (Sound-Kept L snapshot Holds w s h k, v, k, refl)

  after_load-Fine :
      (r : ChunkRecord) (ch : Chunk) (w : World S) (found : S × (String ⊎ ℕ))
      → Sound L snapshot Holds w
      → Kept L snapshot Holds w.target found.0
      → ((n : ℕ) → found.1 ≡ inr n → Holds r.table_fqn ch.chunk_id found.0)
      → Fine L snapshot Holds w (after_load r ch w found)
  after_load-Fine r ch w (s, inl e) h k v = (Sound-Kept L snapshot Holds w s h k, tt, k, refl)
  after_load-Fine r ch w (s, inr n) h k v = (Sound-Kept L snapshot Holds w s h k, v n refl, k, refl)

  begin_load-Fine :
      (r : ChunkRecord) (ch : Option Chunk) (t : Option Table) (w : World S)
      → find_chunk L.chunks r.chunk_id ≡ ch
      → find_table L.tables r.table_fqn ≡ t
      → Sound L snapshot Holds w
      → Matched L r
      → Fine L snapshot Holds w (begin_load E cut L r ch t w)
  begin_load-Fine r none t w fc ft h p = (h, tt, λ name id held. held, refl)
  begin_load-Fine r (some ch) none w fc ft h p = (h, tt, λ name id held. held, refl)
  begin_load-Fine r (some ch) (some t) w fc ft h p =
      after_connect-Fine r ch (reading r t ch) w (E.connect_source w.target) h
        (λ name id. laws.source_keeps name id w.target)
        (
          subst (λ (id : String). find_chunk L.chunks id ≡ some ch)
              (sym (chunk_id-find_chunk L.chunks r.chunk_id ch fc)) fc,
          p ch t fc ft,
          fqn-find_table L.tables r.table_fqn t ft,
        )

  mark_row-Fine :
      (name id : String) (k : Mark) (w : World S)
      → Sound L snapshot Holds w
      → (is_done k.state ≡ true → Holds name id w.target)
      → Sound L snapshot Holds (mark_row L name id k w)
        × (keys (mark_row L name id k w).ledger.chunks ≡ keys w.ledger.chunks)
  unfolding set_chunk_state get_snapshot
  mark_row-Fine name id k w h held =
      let test = is_chunk L.run_id name id in
      (
        (
          h.0,
          All-update_where test (stamp k) (λ r planned is. planned) (λ r planned is. planned)
              w.ledger.chunks h.1,
          All-update_where test (stamp k)
              (λ r before is of done.
                let (_, e, f) = is_chunk_parts L.run_id name id r is in
                subst (λ (a : String). Holds a r.chunk_id w.target) (sym e)
                  (subst (λ (b : String). Holds name b w.target) (sym f) (held done)))
              (λ r before is. before) w.ledger.chunks h.2,
        ),
        keys-update_where test (stamp k) (λ r. (refl, refl, refl)) w.ledger.chunks,
      )

  pub step-Fine :
      (p : Phase) (w : World S)
      → Sound L snapshot Holds w
      → Valid L snapshot Holds w.target p
      → Fine L snapshot Holds w (step E cut L p w)
  unfolding step
  step-Fine (queued r) w h v =
      begin_load-Fine r (find_chunk L.chunks r.chunk_id) (find_table L.tables r.table_fqn) w refl
        refl h v
  step-Fine (reading r t ch) w h v =
      after_connect-Fine r ch (connected r t ch (get_snapshot L.run_id w.ledger)) w
        (E.connect_target w.target) h (λ name id. laws.target_keeps name id w.target) (v, h.0)
  step-Fine (connected r t ch token) w h v =
      let (sound, same) =
        mark_row-Fine r.table_fqn ch.chunk_id in_progress_mark w h (λ done. ground (arith, done)) in
      (sound, v, λ name id held. held, same)
  step-Fine (marked r t ch token) w h v =
      let base : Fine L snapshot Holds w
          (after_load r ch w (load_chunk_range E L ch.table ch snapshot w.target)) =
        after_load-Fine r ch w (load_chunk_range E L ch.table ch snapshot w.target) h
          (λ name id. laws.load_keeps ch v.0.0 name id w.target)
          (λ n e.
            subst
              (λ (name : String).
                Holds name ch.chunk_id (load_chunk_range E L ch.table ch snapshot w.target).0)
              (ap fqn v.0.1 ∙ v.0.2) (laws.load_holds ch v.0.0 n w.target e)) in
      subst
        (λ (u : Table).
          Fine L snapshot Holds w (after_load r ch w (load_chunk_range E L u ch token w.target)))
        v.0.1
        (subst
          (λ (k : Option String).
            Fine L snapshot Holds w
              (after_load r ch w (load_chunk_range E L ch.table ch k w.target)))
          (sym v.1) base)
  step-Fine (written r ch n) w h v =
      let (sound, same) = mark_row-Fine r.table_fqn ch.chunk_id (loaded_mark n) w h (λ done. v) in
      (sound, tt, λ name id held. held, same)
  step-Fine (broken r ch e) w h v =
      let (sound, same) =
        mark_row-Fine r.table_fqn ch.chunk_id (failed_mark (cut e)) w h
          (λ done. ground (arith, done)) in
      (sound, tt, λ name id held. held, same)
  step-Fine finished w h v = (h, tt, λ name id held. held, refl)
