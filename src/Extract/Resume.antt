-- ===== src/Extract/Resume.antt =====
-- The dedup where the positions of the captured records grow, and the numbers of snapshot rows.
use any2helios_db.Prelude.{
  ℕ, ◌<◌, ◌≤◌, ◌≡◌, refl, sym, ap, ◌∙◌, true, false, Option, none, some, List, [], ◌∷◌, ◌++◌, arith,
  append-nil, append_assoc, subst, ◌⊎◌, Bool-cases, Option-cases, inl, inr,
}
use any2helios_db.Record.{SourcePos, ChangeRecord, source_pos_key, key_lt}
use any2helios_db.Apply.{last_record}
use any2helios_db.Extract.{
  is_new, keep_new, drop_already_trailed, above_key, above_records, snapshot_start_seq,
}

-- The position of the last of the records.
abbrev pub last_pos : List ChangeRecord → Option SourcePos
last_pos [] = none
last_pos (r ∷ rs) = (last_record r rs).source_pos

-- Every record has a key, and each key is above the one before and above `k`.
abbrev pub IsIncreasing : ℕ × ℕ → List ChangeRecord → Type 0
IsIncreasing k [] = Unit
IsIncreasing k (r ∷ rs) =
    (k' : ℕ × ℕ) × (source_pos_key r.source_pos ≡ some k')
    × (key_lt k k' ≡ true)
    × IsIncreasing k' rs

abbrev pub IsAboveTail : Option (ℕ × ℕ) → List ChangeRecord → Type 0
IsAboveTail none rs = Unit
IsAboveTail (some k) rs = IsIncreasing k rs

key_lt_trans : (a b c : ℕ × ℕ) → key_lt a b ≡ true → key_lt b c ≡ true → key_lt a c ≡ true
key_lt_trans (a, a') (b, b') (c, c') h k = ground arith

key_lt-asym : (a b : ℕ × ℕ) → key_lt a b ≡ true → key_lt b a ≡ false
key_lt-asym (a, a') (b, b') h = ground arith

key_lt_irrefl : (a : ℕ × ℕ) → key_lt a a ≡ false
key_lt_irrefl (a, a') = ground arith

-- All of an increasing list is new above a key that is not above its bound.
keep_new-above :
    (last k : ℕ × ℕ) (rs : List ChangeRecord)
    → ((q : ℕ × ℕ) → key_lt k q ≡ true → key_lt last q ≡ true)
    → IsIncreasing k rs
    → keep_new last rs ≡ rs
unfolding keep_new
keep_new-above last k [] h inc = refl
keep_new-above last k (r ∷ rs) h (q, e, lt, inc) =
    let new : is_new last (source_pos_key r.source_pos) ≡ true = rw e (h q lt) in
    rw (new, keep_new-above last q rs (λ p below. key_lt_trans last q p (h q lt) below) inc)

some-injective : {A : Type 0} (a b : A) → some a ≡ some b → a ≡ b
some-injective a b h = cc

last-above :
    (k last : ℕ × ℕ) (r : ChangeRecord) (done rest : List ChangeRecord)
    → IsIncreasing k ((r ∷ done) ++ rest)
    → source_pos_key (last_record r done).source_pos ≡ some last
    → key_lt k last ≡ true
last-above k last r [] rest (q, e, lt, inc) at =
    subst (λ (p : ℕ × ℕ). key_lt k p ≡ true) (some-injective q last (sym e ∙ at)) lt
last-above k last r (d ∷ done) rest (q, e, lt, inc) at =
    key_lt_trans k q last lt (last-above q last d done rest inc at)

-- What is in the trail goes, and what is not stays.
keep_new-rest :
    (k last : ℕ × ℕ) (r : ChangeRecord) (done rest : List ChangeRecord)
    → IsIncreasing k ((r ∷ done) ++ rest)
    → source_pos_key (last_record r done).source_pos ≡ some last
    → keep_new last ((r ∷ done) ++ rest) ≡ rest
unfolding keep_new
keep_new-rest k last r [] rest (q, e, lt, inc) at =
    let same : q ≡ last = some-injective q last (sym e ∙ at) in
    let old : is_new last (source_pos_key r.source_pos) ≡ false = rw at (key_lt_irrefl last) in
    rw old (
      keep_new-above last last rest (λ p h. h)
        (subst (λ (p : ℕ × ℕ). IsIncreasing p rest) same inc))
keep_new-rest k last r (d ∷ done) rest (q, e, lt, inc) at =
    let below = last-above q last d done rest inc at in
    let old : is_new last (source_pos_key r.source_pos) ≡ false = rw e (key_lt-asym q last below) in
    rw old (keep_new-rest q last d done rest inc at)

-- Where nothing of the new records is in the trail yet.
keeps-all :
    (tail : Option SourcePos) (since : ℕ × ℕ) (rest : List ChangeRecord)
    → IsAboveTail (source_pos_key tail) rest
    → drop_already_trailed tail rest (some since) ≡ rest
unfolding drop_already_trailed
keeps-all tail since rest above = elim (Option-cases (source_pos_key tail)) [
  | inl absent ↦ rw absent refl
  | inr (k, e) ↦
      let kept : keep_new k rest ≡ rest = keep_new-above k k rest (λ p h. h) (rw e at above) in
      elim (Bool-cases (key_lt k since)) [
        | inl below ↦ rw (e, below) refl
        | inr window ↦ rw (e, window) kept
      ]
]

last_pos-append :
    (xs : List ChangeRecord) (r : ChangeRecord) (rs : List ChangeRecord)
    → last_pos (xs ++ r ∷ rs) ≡ (last_record r rs).source_pos
last_pos-append [] r rs = refl
last_pos-append (x ∷ []) r rs = refl
last_pos-append (x ∷ y ∷ xs) r rs = last_pos-append (y ∷ xs) r rs

last-key :
    (k : ℕ × ℕ) (r : ChangeRecord) (done rest : List ChangeRecord)
    → IsIncreasing k ((r ∷ done) ++ rest)
    → (q : ℕ × ℕ) × (source_pos_key (last_record r done).source_pos ≡ some q)
last-key k r [] rest (q, e, lt, inc) = (q, e)
last-key k r (d ∷ done) rest (q, e, lt, inc) = last-key q d done rest inc

drops-done :
    (since : ℕ × ℕ) (r : ChangeRecord) (done rest : List ChangeRecord)
    → IsIncreasing since ((r ∷ done) ++ rest)
    → drop_already_trailed (last_record r done).source_pos ((r ∷ done) ++ rest) (some since) ≡ rest
unfolding drop_already_trailed
drops-done since r done rest inc =
    let (last, at) = last-key since r done rest inc in
    let window = key_lt-asym since last (last-above since last r done rest inc at) in
    rw (at, window) (keep_new-rest since last r done rest inc at)

-- A cycle crashes once it has trailed `done` of its records, before it moves its resume point
-- `since`. The next cycle captures them again, with the rest, and the dedup leaves just the rest:
-- no record is trailed twice and none is lost. The captured keys grow, from above `since` and from
-- above the tail of the trail before the crashed cycle.
pub drop_already_trailed-resumes :
    (trailed done rest : List ChangeRecord) (since : ℕ × ℕ)
    → IsIncreasing since (done ++ rest)
    → IsAboveTail (source_pos_key (last_pos trailed)) (done ++ rest)
    → (trailed ++ done)
        ++ drop_already_trailed (last_pos (trailed ++ done)) (done ++ rest) (some since)
      ≡ trailed ++ (done ++ rest)
drop_already_trailed-resumes trailed [] rest since inc above =
    rw (append-nil trailed) (ap (λ t. trailed ++ t) (keeps-all (last_pos trailed) since rest above))
drop_already_trailed-resumes trailed (r ∷ done) rest since inc above =
    append_assoc trailed (r ∷ done) _
    ∙ ap (λ t. trailed ++ ((r ∷ done) ++ t))
        (rw (last_pos-append trailed r done) (drops-done since r done rest inc))

-- A record of that key is among the records.
abbrev pub Occurs : ℕ × ℕ → List ChangeRecord → Type 0
Occurs k [] = ⊥
Occurs k (r ∷ rs) = (source_pos_key r.source_pos ≡ some k) ⊎ Occurs k rs

above_key-le : (base : ℕ) (o : Option (ℕ × ℕ)) (above : ℕ) → above ≤ above_key base o above
above_key-le base none above = omega arith
above_key-le base (some (b, s)) above = ground arith

above_key-above : (base seq above : ℕ) → seq < above_key base (some (base, seq)) above
above_key-above base seq above = ground arith

above_records-le :
    (base : ℕ) (rs : List ChangeRecord) (above : ℕ) → above ≤ above_records base rs above
unfolding above_records
above_records-le base [] above = omega arith
above_records-le base (r ∷ rs) above =
    let next : ℕ = above_key base (source_pos_key r.source_pos) above in
    let grows : above ≤ next = above_key-le base (source_pos_key r.source_pos) above in
    omega (arith, above_records-le base rs next, grows)

above_records-above :
    (base seq : ℕ) (rs : List ChangeRecord) (above : ℕ)
    → Occurs (base, seq) rs
    → seq < above_records base rs above
unfolding above_records
above_records-above base seq [] above h = elim h [ ]
above_records-above base seq (r ∷ rs) above (inl e) =
    let next : ℕ = above_key base (source_pos_key r.source_pos) above in
    let high : seq < next = rw e (above_key-above base seq above) in
    omega (arith, above_records-le base rs next, high)
above_records-above base seq (r ∷ rs) above (inr h) =
    above_records-above base seq rs (above_key base (source_pos_key r.source_pos) above) h

-- The rows of a snapshot are numbered above every row of the same base: those that the cycle
-- captured and the one at the tail of the trail.
pub snapshot_start_seq-above :
    (records : List ChangeRecord) (base seq : ℕ) (tail_key : Option (ℕ × ℕ))
    → Occurs (base, seq) records ⊎ (tail_key ≡ some (base, seq))
    → seq < snapshot_start_seq records (some base) tail_key
unfolding snapshot_start_seq
snapshot_start_seq-above records base seq tail_key (inl h) = omega (
  arith,
  above_records-above base seq records 0 h,
  above_key-le base tail_key (above_records base records 0),
)
snapshot_start_seq-above records base seq tail_key (inr e) =
    rw e (above_key-above base seq (above_records base records 0))
