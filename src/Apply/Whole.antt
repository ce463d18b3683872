-- ===== src/Apply/Whole.antt =====
-- The chunks that a replicat reads from a trail are whole transactions.
use any2helios_db.Prelude.{
  ℕ, zero, suc, ◌+◌, ◌-◌, ◌≤◌, ◌<◌, max, ◌≡◌, refl, sym, ap, ◌∙◌, true, Option, none, some, List,
  [], ◌∷◌, ◌++◌, map, arith, length, length-map, drop,
}
use any2helios_db.Record.{ChangeRecord}
use any2helios_db.Record.Codec.{Text, Codec, NoNewline}
use any2helios_db.Trail.{read}
use any2helios_db.Trail.Reading.{limited, IsPositive, drop-nil, read-eq-limited}
use any2helios_db.Trail.Layout.{Layout, records_of, trail_of}
use any2helios_db.Apply.{read_txn_aligned}
use any2helios_db.Apply.Hold.{Log, closes, IsOpen}
use any2helios_db.Apply.Aligned.{align-Aligned}

map-drop : {A B : Type 0} (f : A → B) (n : ℕ) (xs : List A) → map f (drop n xs) ≡ drop n (map f xs)
map-drop f zero xs = refl
map-drop f (suc n) [] = refl
map-drop f (suc n) (x ∷ xs) = map-drop f n xs

map-limited :
    {A B : Type 0} (f : A → B) (o : Option ℕ) (xs : List A)
    → map f (limited o xs) ≡ limited o (map f xs)
map-limited f none xs = refl
map-limited f (some zero) xs = refl
map-limited f (some (suc n)) [] = refl
map-limited f (some (suc n)) (x ∷ xs) = ap (λ t. f x ∷ t) (map-limited f (some n) xs)

drop-drop : {A : Type 0} (m n : ℕ) (xs : List A) → drop (m + n) xs ≡ drop n (drop m xs)
drop-drop zero n xs = let e : 0 + n ≡ n = omega arith in rw e
drop-drop (suc m) n [] = let e : suc m + n ≡ suc (m + n) = omega arith in rw e (sym (drop-nil n))
drop-drop (suc m) n (x ∷ xs) =
    let e : suc m + n ≡ suc (m + n) = omega arith in rw e (drop-drop m n xs)

drop-length-append : {A : Type 0} (xs ys : List A) → drop (length xs) (xs ++ ys) ≡ ys
drop-length-append [] ys = refl
drop-length-append (x ∷ xs) ys = drop-length-append xs ys

module _ (C : Codec) (purged : ℕ) (last : Option ℕ) (rotate : ℕ) (l : Layout) (frag : Text)
    (start : ℕ) where
  -- The records behind the cursor, as they are read.
  abbrev pub unapplied : List ChangeRecord
  unapplied = map C.canon (drop (start - purged) (records_of l))

  pub found-rest :
      (xs rest : List ChangeRecord) (limit : Option ℕ)
      → purged ≤ start
      → xs ++ rest ≡ unapplied
      → map C.canon (limited limit (drop (start + length xs - purged) (records_of l)))
        ≡ limited limit rest
  found-rest xs rest limit h e =
      let at : start + length xs - purged ≡ start - purged + length xs = omega arith in
      rw at (
        map-limited C.canon limit (drop (start - purged + length xs) (records_of l))
        ∙ ap (limited limit) (
            ap (map C.canon) (drop-drop (start - purged) (length xs) (records_of l))
            ∙ map-drop C.canon (length xs) (drop (start - purged) (records_of l))
            ∙ ap (drop (length xs)) (sym e)
            ∙ drop-length-append xs rest))

  pub reads-rest :
      (xs rest : List ChangeRecord) (limit : Option ℕ)
      → NoNewline frag
      → purged ≤ start
      → xs ++ rest ≡ unapplied
      → IsPositive limit
      → read C (trail_of C purged last rotate l frag) (start + length xs) limit
        ≡ some (limited limit rest, start + length xs + length (limited limit rest))
  reads-rest xs rest limit clean h e pos =
      let raw : List ChangeRecord =
        limited limit (drop (start + length xs - purged) (records_of l)) in
      let found = found-rest xs rest limit h e in
      let cursor : max (start + length xs) purged + length raw
          ≡ start + length xs + length (map C.canon raw) =
        omega (arith, length-map raw C.canon) in
      read-eq-limited C purged last rotate l frag (start + length xs) limit clean pos
      ∙ ap (λ (c : ℕ). some (map C.canon raw, c)) cursor
      ∙ ap (λ (t : List ChangeRecord). some (t, start + length xs + length t)) found

  abbrev log_of : NoNewline frag → purged ≤ start → Log
  log_of clean h = record {
    records = unapplied;
    base = start;
    rd = read C (trail_of C purged last rotate l frag);
    reads = λ xs rest limit e pos. reads-rest xs rest limit clean h e pos;
  }

-- With atomic apply on, the replicat reads a chunk `ys` that is a prefix of the records behind its
-- cursor, moves the cursor by exactly its length, and ends it where a source transaction ends: the
-- last record is of none, carries the end mark, or is followed by a record of another. The chunk is
-- empty only if what is left is one transaction without its end. The cursor is not behind the purged
-- lines, the limit is not zero, a torn fragment may stand at the end of the trail, and the fuel is
-- more than the number of the records left.
pub read_txn_aligned-whole :
    (C : Codec) (purged : ℕ) (last : Option ℕ) (rotate : ℕ) (l : Layout) (frag : Text) (start : ℕ)
    (limit : Option ℕ) (fuel : ℕ)
    → NoNewline frag
    → purged ≤ start
    → IsPositive limit
    → length (drop (start - purged) (records_of l)) < fuel
    → (ys : List ChangeRecord) × (zs : List ChangeRecord) × (ys ++ zs
        ≡ map C.canon (drop (start - purged) (records_of l)))
      × (read_txn_aligned C fuel (trail_of C purged last rotate l frag) start limit true
          ≡ some (ys, start + length ys))
      × (closes ys zs ≡ true)
      × (ys ≡ [] → IsOpen zs)
unfolding read_txn_aligned
read_txn_aligned-whole C purged last rotate l frag start limit fuel clean h pos enough =
    align-Aligned (log_of C purged last rotate l frag start clean h) fuel limit pos
      (omega (arith, length-map (drop (start - purged) (records_of l)) C.canon))
