-- ===== src/Replicat/Barrier/Parts.antt =====
-- The barrier cuts the records at the key moves and persists the cursor after every part.
use any2helios_db.Prelude.{
  ℕ, suc, ◌+◌, ◌≡◌, refl, ap, ◌∙◌, true, false, Option, none, some, List, [], ◌∷◌, ◌++◌,
  append_assoc, if◌then◌else◌, length, arith, Bool-cases, inl, inr,
}
use any2helios_db.Record.{ChangeRecord}
use any2helios_db.Replicat.{Action, go_on, Driver, Config, Outcome, is_keymove}
use any2helios_db.Replicat.Apply.{apply}
use any2helios_db.Replicat.Barrier.{
  OnPoison, OnFlush, flush_batch, apply_batch, barrier_loop, apply_barriered,
}

-- A key move alone, or records without one.
pub data Part : Type 0 where
  single : ChangeRecord → Part
  batch : ChangeRecord → List ChangeRecord → Part

abbrev pub part_records : Part → List ChangeRecord
part_records (single r) = r ∷ []
part_records (batch r rs) = r ∷ rs

abbrev pub parts_records : List Part → List ChangeRecord
parts_records [] = []
parts_records (p ∷ ps) = part_records p ++ parts_records ps

abbrev pub NoKeymove : Config → List ChangeRecord → Type 0
NoKeymove cfg [] = Unit
NoKeymove cfg (r ∷ rs) = (is_keymove cfg r ≡ false) × NoKeymove cfg rs

-- Two batches in a row are one.
abbrev pub AreParts : Config → List Part → Type 0
AreParts cfg [] = Unit
AreParts cfg (single r ∷ ps) = (is_keymove cfg r ≡ true) × AreParts cfg ps
AreParts cfg (batch r rs ∷ []) = NoKeymove cfg (r ∷ rs)
AreParts cfg (batch r rs ∷ single q ∷ ps) = NoKeymove cfg (r ∷ rs) × AreParts cfg (single q ∷ ps)
AreParts cfg (batch r rs ∷ batch q qs ∷ ps) = ⊥

module _ {S : Type 0} (D : Driver S) (cfg : Config) (on_flush : OnFlush S) (retries : ℕ)
    (on_poison : Option (OnPoison S)) where
  -- The part with its records, before the cursor is persisted.
  abbrev pub apply_part : ℕ → Part → Action S Outcome
  apply_part consumed (single r) = apply D cfg (r ∷ [])
  apply_part consumed (batch r rs) = apply_batch D cfg retries on_poison consumed (r ∷ rs)

  -- The parts one after the other, each with its own flush.
  abbrev pub run_parts : List Part → ℕ → Outcome → Action S Outcome
  run_parts [] consumed total s = (s, some total)
  run_parts (p ∷ ps) consumed total s =
      let after = consumed + length (part_records p) in
      go_on (apply_part consumed p s)
        (λ out s'. run_parts ps after (total.0 + out.0, total.1 ++ out.1) (on_flush after s'))

pub go_on-cong :
    {S A B : Type 0} (m : S × Option A) (k k' : A → Action S B)
    → ((a : A) (s : S) → k a s ≡ k' a s)
    → go_on m k ≡ go_on m k'
go_on-cong (s, none) k k' h = refl
go_on-cong (s, some a) k k' h = h a s

abbrev close : List ChangeRecord → List Part → List Part
close [] ps = ps
close (r ∷ rs) ps = batch r rs ∷ ps

-- Where the loop cuts; `b` is its batch.
pub cut : Config → List ChangeRecord → List ChangeRecord → List Part
cut cfg [] b = close b []
cut cfg (r ∷ rs) b =
    let after = cut cfg rs [] in
    let longer = cut cfg rs (b ++ r ∷ []) in
    if is_keymove cfg r then close b (single r ∷ after) else longer

parts_records-close :
    (b : List ChangeRecord) (ps : List Part) → parts_records (close b ps) ≡ b ++ parts_records ps
parts_records-close [] ps = refl
parts_records-close (r ∷ rs) ps = refl

pub parts_records-cut :
    (cfg : Config) (rs b : List ChangeRecord) → parts_records (cut cfg rs b) ≡ b ++ rs
unfolding cut
parts_records-cut cfg [] b = parts_records-close b []
parts_records-cut cfg (r ∷ rs) b = elim (Bool-cases (is_keymove cfg r)) [
  | inl moves ↦ rw moves (
      parts_records-close b (single r ∷ cut cfg rs [])
      ∙ ap (λ (t : List ChangeRecord). b ++ r ∷ t) (parts_records-cut cfg rs []))
  | inr stays ↦ rw stays (parts_records-cut cfg rs (b ++ r ∷ []) ∙ append_assoc b (r ∷ []) rs)
]

NoKeymove-append :
    (cfg : Config) (b : List ChangeRecord) (r : ChangeRecord)
    → NoKeymove cfg b
    → is_keymove cfg r ≡ false
    → NoKeymove cfg (b ++ r ∷ [])
NoKeymove-append cfg [] r h e = (e, tt)
NoKeymove-append cfg (x ∷ b) r h e = (h.0, NoKeymove-append cfg b r h.1 e)

pub AreParts-cut :
    (cfg : Config) (rs b : List ChangeRecord) → NoKeymove cfg b → AreParts cfg (cut cfg rs b)
unfolding cut
AreParts-cut cfg [] [] h = tt
AreParts-cut cfg [] (x ∷ b) h = h
AreParts-cut cfg (r ∷ rs) [] h = elim (Bool-cases (is_keymove cfg r)) [
  | inl moves ↦ rw moves (moves, AreParts-cut cfg rs [] tt)
  | inr stays ↦ rw stays (AreParts-cut cfg rs (r ∷ []) (stays, tt))
]
AreParts-cut cfg (r ∷ rs) (x ∷ b) h = elim (Bool-cases (is_keymove cfg r)) [
  | inl moves ↦ rw moves (h, (moves, AreParts-cut cfg rs [] tt))
  | inr stays ↦
      rw stays (AreParts-cut cfg rs ((x ∷ b) ++ r ∷ []) (NoKeymove-append cfg (x ∷ b) r h stays))
]

module _ {S : Type 0} (D : Driver S) (cfg : Config) (on_flush : OnFlush S) (retries : ℕ)
    (on_poison : Option (OnPoison S)) where
  abbrev run : List Part → ℕ → Outcome → Action S Outcome
  run = run_parts D cfg on_flush retries on_poison

  flush_batch-run :
      (b : List ChangeRecord) (ps : List Part) (consumed : ℕ) (total : Outcome)
      (k : ℕ → Outcome → Action S Outcome) (s : S)
      → ((c : ℕ) (t : Outcome) (s' : S) → k c t s' ≡ run ps c t s')
      → flush_batch D cfg on_flush retries on_poison b consumed total k s
        ≡ run (close b ps) consumed total s
  flush_batch-run [] ps consumed total k s h = h consumed total s
  flush_batch-run (r ∷ b) ps consumed total k s h =
      go_on-cong (apply_batch D cfg retries on_poison consumed (r ∷ b) s) _ _ (λ out s'. h _ _ _)

  pub barrier_loop-run :
      (rs b : List ChangeRecord) (consumed : ℕ) (total : Outcome) (s : S)
      → barrier_loop D cfg on_flush retries on_poison rs b consumed total s
        ≡ run (cut cfg rs b) consumed total s
  unfolding barrier_loop cut
  barrier_loop-run [] b consumed total s = flush_batch-run b [] consumed total _ s (λ c t s'. refl)
  barrier_loop-run (r ∷ rs) b consumed total s = elim (Bool-cases (is_keymove cfg r)) [
    | inl moves ↦ rw moves (
        flush_batch-run b (single r ∷ cut cfg rs []) consumed total _ s (λ c t s'.
          go_on-cong (apply D cfg (r ∷ []) s') _ _ (λ out s''.
            let next : suc c ≡ c + 1 = omega arith in
            barrier_loop-run rs [] (suc c) (t.0 + out.0, t.1 ++ out.1) (on_flush (suc c) s'')
            ∙ ap (λ (m : ℕ). run (cut cfg rs []) m (t.0 + out.0, t.1 ++ out.1) (on_flush m s''))
                next)))
    | inr stays ↦ rw stays (barrier_loop-run rs (b ++ r ∷ []) consumed total s)
  ]

-- The barrier is a run of parts, one after the other. The parts are the records in their order; a
-- key move is a part of its own, and no two parts without a key move stand side by side. After each
-- part that was applied, and only then, the cursor is persisted with the number of the records
-- so far; an exception in a part ends the run with the cursor before that part.
pub apply_barriered-runs_parts :
    {S : Type 0} (D : Driver S) (cfg : Config) (on_flush : OnFlush S) (retries : ℕ)
    (on_poison : Option (OnPoison S)) (records : List ChangeRecord)
    → (parts : List Part) × (parts_records parts ≡ records)
      × AreParts cfg parts
      × ((s : S)
          → apply_barriered D cfg on_flush retries on_poison records s
            ≡ run_parts D cfg on_flush retries on_poison parts 0 (0, []) s)
unfolding apply_barriered
apply_barriered-runs_parts D cfg on_flush retries on_poison records = (
  cut cfg records [],
  parts_records-cut cfg records [],
  AreParts-cut cfg records [] tt,
  λ s. barrier_loop-run D cfg on_flush retries on_poison records [] 0 (0, []) s,
)
