-- ===== src/Apply/Aligned.antt =====
-- A chunk never ends inside a source transaction, and takes none whose end is not durable.
use any2helios_db.Prelude.{
  ℕ, zero, suc, ◌+◌, ◌≤◌, ◌<◌, ◌≡◌, refl, sym, ap, subst, ◌∙◌, true, false, Option, none, some,
  List, [], ◌∷◌, ◌++◌, append-nil, append_assoc, ltb, ◌==◌, if◌then◌else◌, arith, length,
  length-append, length-drop, length-take, take, drop, take-append-drop, Bool-cases, inl, inr,
}
use any2helios_db.Record.{ChangeRecord}
use any2helios_db.Trail.{Read}
use any2helios_db.Trail.Reading.{limited, IsPositive, take-nil}
use any2helios_db.Apply.{is_none, same_txn, last_record, same_prefix, overshoot, extend, align}
use any2helios_db.Apply.Hold.{Log, Edge, Aligned, same_txn→eq, hold-Aligned}
use any2helios_db.Apply.Runs.{AllTxn, ChangesTxn, same_prefix-splits}

ChangesTxn-append :
    (tid : Option ℕ) (xs ys : List ChangeRecord)
    → 1 ≤ length xs
    → ChangesTxn tid xs
    → ChangesTxn tid (xs ++ ys)
ChangesTxn-append tid [] ys h c = absurd (omega arith)
ChangesTxn-append tid (x ∷ xs) ys h c = c

AllTxn-append :
    (tid : Option ℕ) (xs ys : List ChangeRecord)
    → AllTxn tid xs
    → AllTxn tid ys
    → AllTxn tid (xs ++ ys)
AllTxn-append tid [] ys h k = k
AllTxn-append tid (x ∷ xs) ys h k = (h.0, AllTxn-append tid xs ys h.1 k)

same_prefix-all :
    (tid : Option ℕ) (xs : List ChangeRecord) → length xs ≤ same_prefix tid xs → AllTxn tid xs
unfolding same_prefix
same_prefix-all tid [] h = tt
same_prefix-all tid (x ∷ xs) h = elim (Bool-cases (same_txn x.txn_id tid)) [
  | inl same ↦ (same, same_prefix-all tid xs (ground arith))
  | inr other ↦ absurd (ground arith)
]

AllTxn-last :
    (tid : Option ℕ) (y : ChangeRecord) (ys : List ChangeRecord)
    → AllTxn tid (y ∷ ys)
    → (last_record y ys).txn_id ≡ tid
AllTxn-last tid y [] h = same_txn→eq y.txn_id tid h.0
AllTxn-last tid y (q ∷ ys) h = AllTxn-last tid q ys h.1

take-empty : {A : Type 0} (n : ℕ) (xs : List A) → 1 ≤ n → take n xs ≡ [] → drop n xs ≡ []
take-empty zero xs h e = absurd (omega arith)
take-empty (suc n) [] h e = refl
take-empty (suc n) (x ∷ xs) h e = absurd (ground arith)

Edge-end : (xs : List ChangeRecord) → Edge xs []
Edge-end [] = refl
Edge-end (x ∷ xs) = λ _. tt

last_record-append :
    (r : ChangeRecord) (rs ys : List ChangeRecord)
    → AllTxn (last_record r rs).txn_id ys
    → (last_record r (rs ++ ys)).txn_id ≡ (last_record r rs).txn_id
last_record-append r [] [] same = refl
last_record-append r [] (y ∷ ys) same = AllTxn-last r.txn_id y ys same
last_record-append r (q ∷ rs) ys same = last_record-append q rs ys same

module _ (L : Log) where
  open L use {records, base, rd, reads}

  empty-read :
      (xs : List ChangeRecord) (n : ℕ)
      → xs ++ [] ≡ records
      → 1 ≤ n
      → rd (base + length xs) (some n) ≡ some ([], base + length xs + 0)
  empty-read xs n e pos =
      subst
        (λ (t : List ChangeRecord).
          rd (base + length xs) (some n) ≡ some (t, base + length xs + length t))
        (take-nil n) (reads xs [] (some n) e pos)

  -- One round of the loop, with what it read.
  overshoot-round :
      (fuel : ℕ) (limit tid : Option ℕ) (xs more : List ChangeRecord) (next cursor : ℕ)
      → rd next limit ≡ some (more, cursor)
      → overshoot (suc fuel) rd limit tid xs next ≡ (
          if length more == 0
          then some (xs, next)
          else if ltb (same_prefix tid more) (length more)
          then some (xs ++ take (same_prefix tid more) more, next + same_prefix tid more)
          else overshoot fuel rd limit tid (xs ++ more) cursor)
  unfolding overshoot
  overshoot-round fuel limit tid xs more next cursor e = rw (e, overshoot) refl

  overshoot-stops :
      (fuel n : ℕ) (tid : Option ℕ) (xs rest : List ChangeRecord)
      → xs ++ rest ≡ records
      → 1 ≤ n
      → length rest < fuel
      → (ys : List ChangeRecord) × (zs : List ChangeRecord) × (ys ++ zs ≡ rest)
        × AllTxn tid ys
        × ChangesTxn tid zs
        × (overshoot fuel rd (some n) tid xs (base + length xs)
            ≡ some (xs ++ ys, base + length (xs ++ ys)))
  overshoot-stops zero n tid xs rest e pos h = elim h [ ]
  overshoot-stops (suc fuel) n tid xs [] e pos h = (
    [],
    [],
    refl,
    tt,
    tt,
    overshoot-round fuel (some n) tid xs [] (base + length xs) _ (empty-read xs n e pos)
        ∙ (rw (append-nil xs) refl),
  )
  overshoot-stops (suc fuel) n tid xs (r ∷ rest) e pos h =
      let more : List ChangeRecord = take n (r ∷ rest) in
      let later : List ChangeRecord = drop n (r ∷ rest) in
      let cut : ℕ = same_prefix tid more in
      let whole : more ++ later ≡ r ∷ rest = take-append-drop n (r ∷ rest) in
      let some_more : (length more == 0) ≡ false = ground (arith, length-take n (r ∷ rest)) in
      let round =
        overshoot-round fuel (some n) tid xs more (base + length xs) _
          (reads xs (r ∷ rest) (some n) e pos) in
      elim (Bool-cases (ltb cut (length more))) [
        | inl stops ↦
            let (same, changes) = same_prefix-splits tid more in
            (
              take cut more,
              drop cut more ++ later,
              sym (append_assoc (take cut more) (drop cut more) later)
                  ∙ ap (λ t. t ++ later) (take-append-drop cut more)
                  ∙ whole,
              same,
              ChangesTxn-append tid (drop cut more) later (ground (arith, length-drop cut more))
                  changes,
              round
                  ∙ (rw (some_more, stops)
                      (ap (λ (c : ℕ). some (xs ++ take cut more, c))
                        (ground (arith, length-append xs (take cut more), length-take cut more)))),
            )
        | inr on ↦
            let (ys, zs, split, same, changes, result) =
              overshoot-stops fuel n tid (xs ++ more) later
                (append_assoc xs more later ∙ ap (λ t. xs ++ t) whole ∙ e) pos
                (omega (arith, length-drop n (r ∷ rest))) in
            (
              more ++ ys,
              zs,
              append_assoc more ys zs ∙ ap (λ t. more ++ t) split ∙ whole,
              AllTxn-append tid more ys (same_prefix-all tid more (ground arith)) same,
              changes,
              round
                  ∙ (rw (some_more, on)
                      (ap (λ (c : ℕ). overshoot fuel rd (some n) tid (xs ++ more) c)
                          (omega (arith, length-append xs more))
                        ∙ result
                        ∙ ap (λ (t : List ChangeRecord). some (t, base + length t))
                            (append_assoc xs more ys))),
            )
      ]

  -- What `extend` makes of the records that were read, and that the edge is one.
  abbrev Extended : List ChangeRecord → Read → Type 0
  Extended all found =
      (xs : List ChangeRecord) × (rest : List ChangeRecord) × (xs ++ rest ≡ all)
      × Edge xs rest
      × (found ≡ some (xs, base + length xs))

  extend-edge :
      (fuel n : ℕ) (xs rest : List ChangeRecord)
      → xs ++ rest ≡ records
      → (xs ≡ [] → rest ≡ [])
      → 1 ≤ n
      → length rest < fuel
      → Extended records (extend fuel rd (some n) xs (base + length xs))
  unfolding extend
  extend-edge fuel n [] rest e nothing pos h = ([], rest, e, nothing refl, refl)
  extend-edge fuel n (r ∷ rs) rest e nothing pos h =
      let tid : Option ℕ = (last_record r rs).txn_id in
      elim (Bool-cases (is_none tid)) [
        | inl untagged ↦ rw untagged (r ∷ rs, rest, e, (λ t. absurd (ground arith)), refl)
        | inr tagged ↦
            let (ys, zs, split, same, changes, result) =
              overshoot-stops fuel n tid (r ∷ rs) rest e pos h in
            rw tagged (
              (r ∷ rs) ++ ys,
              zs,
              append_assoc (r ∷ rs) ys zs ∙ ap (λ t. (r ∷ rs) ++ t) split ∙ e,
              (λ t.
                  subst (λ (o : Option ℕ). ChangesTxn o zs) (sym (last_record-append r rs ys same))
                    changes),
              result,
            )
      ]

  extend-none :
      (fuel : ℕ) (xs : List ChangeRecord) (next : ℕ) → extend fuel rd none xs next ≡ some (xs, next)
  unfolding extend
  extend-none fuel [] next = refl
  extend-none fuel (x ∷ xs) next = refl

  extend-limited :
      (fuel : ℕ) (limit : Option ℕ)
      → IsPositive limit
      → length records < fuel
      → Extended records
          (extend fuel rd limit (limited limit records) (base + length (limited limit records)))
  extend-limited fuel none pos h = (
    records,
    [],
    append-nil records,
    Edge-end records,
    extend-none fuel records (base + length records),
  )
  extend-limited fuel (some n) pos h =
      extend-edge fuel n (take n records) (drop n records) (take-append-drop n records)
        (take-empty n records pos) pos (omega (arith, length-drop n records))

  pub align-Aligned :
      (fuel : ℕ) (limit : Option ℕ)
      → IsPositive limit
      → length records < fuel
      → Aligned records base (align fuel rd base limit true)
  unfolding align
  align-Aligned fuel limit pos h =
      let found : List ChangeRecord = limited limit records in
      let (ys, zs, e, edge, longer) = extend-limited fuel limit pos h in
      let zero_on : base + 0 ≡ base = omega arith in
      let first : rd base limit ≡ some (found, base + length found) =
        subst (λ (b : ℕ). rd b limit ≡ some (found, b + length found)) zero_on
          (reads [] records limit refl pos) in
      rw (first, longer) (hold-Aligned L ys zs e edge)
