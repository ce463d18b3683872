-- ===== src/Replicating/Reads.antt =====
-- What one round of a run reads: the next records, whatever the mode.
use any2helios_db.Prelude.{
  ℕ, zero, suc, ◌+◌, ◌-◌, ◌≤◌, ◌<◌, ◌≡◌, refl, sym, ap, ◌∙◌, subst, Bool, true, false, Option, none,
  some, List, [], ◌∷◌, ◌++◌, append-nil, map, length, length-map, arith, drop, take-append-drop,
}
use any2helios_db.Record.{ChangeRecord}
use any2helios_db.Record.Codec.{Text, Codec, NoNewline}
use any2helios_db.Trail.{read}
use any2helios_db.Trail.Reading.{limited, IsPositive}
use any2helios_db.Trail.Layout.{Layout, records_of, trail_of}
use any2helios_db.Apply.{align, read_txn_aligned}
use any2helios_db.Apply.Hold.{IsOpen}
use any2helios_db.Apply.Whole.{found-rest, read_txn_aligned-whole, reads-rest}
use any2helios_db.Replicating.{limit_of}

-- What a run may leave at the end of the trail: with atomic apply a transaction that has not ended,
-- else nothing.
abbrev pub MayStay : Bool → List ChangeRecord → Type 0
MayStay true rest = IsOpen rest
MayStay false rest = rest ≡ []

pub limit_of-IsPositive : (n : ℕ) → IsPositive (limit_of n)
limit_of-IsPositive zero = tt
limit_of-IsPositive (suc n) = omega arith

limited-rest :
    (o : Option ℕ) (rs : List ChangeRecord) → (zs : List ChangeRecord) × (limited o rs ++ zs ≡ rs)
limited-rest none rs = ([], append-nil rs)
limited-rest (some n) rs = (drop n rs, take-append-drop n rs)

limited-empty : (o : Option ℕ) (rs : List ChangeRecord) → IsPositive o → limited o rs ≡ [] → rs ≡ []
limited-empty none rs pos e = e
limited-empty (some zero) rs pos e = absurd (omega arith)
limited-empty (some (suc n)) [] pos e = refl
limited-empty (some (suc n)) (r ∷ rs) pos e = absurd (ground arith)

module _ (C : Codec) (purged : ℕ) (last : Option ℕ) (rotate : ℕ) (l : Layout) (frag : Text)
    (clean : NoNewline frag) where
  abbrev pub left_from : ℕ → List ChangeRecord
  left_from start = map C.canon (drop (start - purged) (records_of l))

  reads_plain :
      (start : ℕ) (limit : Option ℕ) (rounds : ℕ)
      → purged ≤ start
      → IsPositive limit
      → read_txn_aligned C rounds (trail_of C purged last rotate l frag) start limit false
        ≡ some (limited limit (left_from start), start + length (limited limit (left_from start)))
  unfolding read_txn_aligned align
  reads_plain start limit rounds h pos =
      let found = limited limit (left_from start) in
      let zero_on : start + 0 ≡ start = omega arith in
      let first : read C (trail_of C purged last rotate l frag) start limit
          ≡ some (found, start + length found) =
        subst
          (λ (b : ℕ).
            read C (trail_of C purged last rotate l frag) b limit ≡ some (found, b + length found))
          zero_on
          (reads-rest C purged last rotate l frag start [] (left_from start) limit clean h refl
            pos) in
      rw first refl

  -- One round reads the next records, whatever the mode.
  pub reads_chunk :
      (start : ℕ) (limit : Option ℕ) (rounds : ℕ) (enabled : Bool)
      → purged ≤ start
      → IsPositive limit
      → length (left_from start) < rounds
      → (ys : List ChangeRecord) × (zs : List ChangeRecord) × (ys ++ zs ≡ left_from start)
        × (read_txn_aligned C rounds (trail_of C purged last rotate l frag) start limit enabled
            ≡ some (ys, start + length ys))
        × (ys ≡ [] → MayStay enabled zs)
  reads_chunk start limit rounds true h pos enough =
      let all = drop (start - purged) (records_of l) in
      let enough' : length all < rounds = omega (arith, length-map all C.canon) in
      let (ys, zs, e, reads, _, open_tail) =
        read_txn_aligned-whole C purged last rotate l frag start limit rounds clean h pos enough' in
      (ys, zs, e, reads, open_tail)
  reads_chunk start limit rounds false h pos enough =
      let u = left_from start in
      let (zs, e) = limited-rest limit u in
      (
        limited limit u,
        zs,
        e,
        reads_plain start limit rounds h pos,
        λ empty.
            sym (ap (λ (t : List ChangeRecord). t ++ zs) empty)
            ∙ e
            ∙ limited-empty limit u pos empty,
      )

  pub left_from-after :
      (start : ℕ) (ys zs : List ChangeRecord)
      → purged ≤ start
      → ys ++ zs ≡ left_from start
      → left_from (start + length ys) ≡ zs
  left_from-after start ys zs h e = found-rest C purged last rotate l frag start ys zs none h e
