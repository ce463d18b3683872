-- ===== src/Replicating/Parked.antt =====
-- A run parks records as `ParksWithin` says.
use any2helios_db.Prelude.{
  ℕ, zero, suc, ◌+◌, ◌≤◌, ◌≡◌, refl, ap, ◌∙◌, String, false, not, ◌&&◌, [], ◌∷◌, ◌==◌, arith,
  Bool-cases, inl, inr, ltb, ◌⊎◌,
}
use any2helios_db.Record.{ChangeRecord}
use any2helios_db.Record.Codec.{Codec}
use any2helios_db.DeadLetter.{Entry, Journal, pos_key, append_letter}
use any2helios_db.DeadLetter.File.{append_letter-letters_text}
use any2helios_db.Trail.{Trail}
use any2helios_db.Replicat.{Driver, Config, Outcome}
use any2helios_db.Replicat.Follows.{Rule}
use any2helios_db.Replicat.Follows.Ends.{Falls, Ends}
use any2helios_db.Replicating.Ends.{run_chunks-Ends}
use any2helios_db.Replicating.{
  World, Options, park_letter, break_circuit, is_parked, poison_cb, run_chunks,
}
use any2helios_db.Replicating.Letters.{
  AddsLetters, holds_parked, ParksWithin, ParksWithin-Rule, ParksWithin-Falls,
  set_cursor-ParksWithin, target-Session,
}

within_limit : (limit n : ℕ) → (not (limit == 0) && ltb limit n) ≡ false → (limit ≡ 0) ⊎ (n ≤ limit)
within_limit zero n h = inl refl
within_limit (suc limit) n h = inr (ground arith)

module _ {T : Type 0} (J : Journal) (D : Driver T) (cfg : Config) (name_of : String → String)
    (opts : Options) (name : String) where
  abbrev R : World T → World T → Type 0
  R = ParksWithin J D cfg name_of opts name

  abbrev X : World T → World T → Type 0
  X = AddsLetters J

  abbrev rule : Rule R
  rule = ParksWithin-Rule J D cfg name_of opts name

  abbrev falls : Falls R X
  falls = ParksWithin-Falls J D cfg name_of opts name

  -- A record that is not parked yet.
  park_letter-AddsLetters :
      (r : ChangeRecord) (cursor : ℕ) (w : World T)
      → is_parked J D cfg name_of opts name r w ≡ false
      → AddsLetters J w (park_letter J D cfg name_of opts name r cursor w)
  unfolding park_letter is_parked
  park_letter-AddsLetters r cursor w fresh es h =
      let e : Entry = record { letter = r; cursor = cursor } in
      (
        e ∷ [],
        holds_parked J es w e (pos_key J r) (append_letter J r cursor w.letters) h refl
            (ap (append_letter J r cursor) h.file ∙ append_letter-letters_text J es r cursor)
            (λ key at. rw (at, is_parked) at fresh),
        omega arith,
      )

  poison_cb-Ends :
      (chunk_start : ℕ) (r : ChangeRecord) (offset : ℕ) (w : World T)
      → Ends R X w (poison_cb J D cfg name_of opts name chunk_start r offset w)
  unfolding poison_cb break_circuit
  poison_cb-Ends chunk_start r offset w =
      let parked_world = park_letter J D cfg name_of opts name r (chunk_start + offset) w in
      elim (Bool-cases (is_parked J D cfg name_of opts name r w)) [
        | inl already ↦ rw already (rule.stay w)
        | inr new ↦
            let adds = park_letter-AddsLetters r (chunk_start + offset) w new in
            elim (Bool-cases
              (not (opts.max_poison == 0) && ltb opts.max_poison parked_world.poisoned)) [
                | inl over ↦ rw (new, over) adds
                | inr within ↦
                    rw (new, within)
                      (adds, λ h. within_limit opts.max_poison parked_world.poisoned within)
              ]
      ]

  pub run_chunks-ParksWithin :
      (C : Codec) (t : Trail) (rounds fuel start read_total : ℕ) (total : Outcome) (w : World T)
      → Ends R X w (run_chunks J D cfg name_of opts name C fuel t start read_total total rounds w)
  run_chunks-ParksWithin C t rounds =
      run_chunks-Ends J D cfg name_of opts name R X rule falls
        (target-Session J D cfg name_of opts name)
        (set_cursor-ParksWithin J D cfg name_of opts name) poison_cb-Ends C t rounds
