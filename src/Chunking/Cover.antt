-- ===== src/Chunking/Cover.antt =====
-- The ranges of `compute_chunks` partition the keys between the bounds.
use native.Mathlib.Nat.{div-add-mod, mod-lt}
use any2helios_db.Prelude.{
  ℕ, zero, suc, ◌+◌, ◌-◌, ◌*◌, ◌/◌, ◌≤◌, ◌<◌, min, max, String, ◌≡◌, sym, ◌&&◌, true, false, Option,
  some, List, [], ◌∷◌, arith, length, if◌then◌else◌, inl, inr, Bool-cases,
}
use any2helios_db.Prelude.Int.{
  ℤ, pos, pos_part, ◌+ℤ◌, ◌-ℤ◌, ◌≤ℤ◌, ◌<ℤ◌, leb_ℤ, ltb_ℤ, min_ℤ, div_ℤ, +ℤ_parts, -ℤ_parts,
}
use any2helios_db.Catalog.{Table, single_pk_col}
use any2helios_db.Chunking.{
  Chunk, key_range, chunk_name, chunk_loop, span_of, step_of, range_chunks, compute_chunks,
}

-- 1 where the key lies in the chunk's range, else 0.
abbrev holds_in : ℤ → Option ℤ → Option ℤ → ℕ
holds_in z (some lo) (some hi) = if leb_ℤ lo z && ltb_ℤ z hi then 1 else 0
holds_in z _ _ = 0

-- How many chunks hold the key.
abbrev pub holders : ℤ → List Chunk → ℕ
holders z [] = 0
holders z (c ∷ cs) = holds_in z c.lo c.hi + holders z cs

abbrev pub within : ℤ → ℤ → ℤ → ℕ
within lo hi z = if leb_ℤ lo z && leb_ℤ z hi then 1 else 0

within-split :
    (start end hi z : ℤ)
    → start ≤ℤ end
    → end ≤ℤ hi +ℤ pos 1
    → holds_in z (some start) (some end) + within end hi z ≡ within start hi z
within-split start end hi z h k = ground (arith, +ℤ_parts hi (pos 1))

within-empty : (start hi z : ℤ) → leb_ℤ start hi ≡ false → within start hi z ≡ 0
within-empty start hi z h = ground arith

-- The end of a range that begins at `start` lies above it and not above `hi + 1`.
abbrev end_of : ℤ → ℤ → ℤ → ℤ
end_of step hi start = min_ℤ (start +ℤ step) (hi +ℤ pos 1)

end_bounds :
    (k : ℕ) (hi start : ℤ)
    → 0 < k
    → leb_ℤ start hi ≡ true
    → (start <ℤ end_of (pos k) hi start) × (end_of (pos k) hi start ≤ℤ hi +ℤ pos 1)
end_bounds k hi start h le = ground (arith, +ℤ_parts hi (pos 1), +ℤ_parts start (pos k))

-- What is left to cover, as a number.
abbrev left : ℤ → ℤ → ℕ
left hi start = pos_part (hi +ℤ pos 1 -ℤ start)

left-lt : (hi start end : ℤ) → start <ℤ end → end ≤ℤ hi +ℤ pos 1 → left hi end < left hi start
left-lt hi start end h k = ground (arith, -ℤ_parts (hi +ℤ pos 1) start, -ℤ_parts (hi +ℤ pos 1) end)

left-end :
    (k m : ℕ) (hi start : ℤ)
    → 0 < k
    → leb_ℤ start hi ≡ true
    → left hi start ≤ suc m * k
    → left hi (end_of (pos k) hi start) ≤ m * k
left-end k m hi start big more h = ground (
  arith,
  -ℤ_parts (hi +ℤ pos 1) start,
  -ℤ_parts (hi +ℤ pos 1) (end_of (pos k) hi start),
  +ℤ_parts start (pos k),
)

left-positive : (hi start : ℤ) → leb_ℤ start hi ≡ true → 0 < left hi start
left-positive hi start more = ground (arith, -ℤ_parts (hi +ℤ pos 1) start, +ℤ_parts hi (pos 1))

-- At most `m` ranges, where `m` steps reach the end.
abbrev IsShort : ℕ → ℤ → ℤ → List Chunk → Type 0
IsShort k hi start cs = (m : ℕ) → left hi start ≤ m * k → length cs ≤ m

cons-IsShort :
    (k : ℕ) (hi start : ℤ) (c : Chunk) (cs : List Chunk)
    → 0 < k
    → leb_ℤ start hi ≡ true
    → IsShort k hi (end_of (pos k) hi start) cs
    → IsShort k hi start (c ∷ cs)
cons-IsShort k hi start c cs big more short zero h =
    absurd (omega (arith, left-positive hi start more))
cons-IsShort k hi start c cs big more short (suc m) h =
    let tail : length cs ≤ m = short m (left-end k m hi start big more h) in omega arith

module _ (t : Table) (col : String) (k : ℕ) (big : 0 < k) (hi : ℤ) where
  abbrev Partitions : ℤ → List Chunk → Type 0
  Partitions start cs = ((z : ℤ) → holders z cs ≡ within start hi z) × IsShort k hi start cs

  chunk_loop-Partitions :
      (f : ℕ) (start : ℤ) (ordinal : ℕ)
      → left hi start < f
      → (cs : List Chunk) × (chunk_loop f t col (pos k) hi start ordinal ≡ some cs)
        × Partitions start cs
  unfolding chunk_loop
  chunk_loop-Partitions zero start ordinal m = absurd (omega arith)
  chunk_loop-Partitions (suc f) start ordinal m = elim (Bool-cases (leb_ℤ start hi)) [
    | inr done ↦ ([], rw done, ((λ z. sym (within-empty start hi z done)), (λ m h. omega arith)))
    | inl more ↦
        let end : ℤ = end_of (pos k) hi start in
        let bounds : (start <ℤ end) × (end ≤ℤ hi +ℤ pos 1) = end_bounds k hi start big more in
        let less : left hi end < left hi start = left-lt hi start end bounds.0 bounds.1 in
        let rest : (cs : List Chunk) × (chunk_loop f t col (pos k) hi end (suc ordinal) ≡ some cs)
            × Partitions end cs =
          chunk_loop-Partitions f end (suc ordinal) (omega arith) in
        let first : Chunk = key_range t (chunk_name t ordinal) col start end in
        (
          first ∷ rest.0,
          rw (more, rest.1),
          (
            (λ z. rw (rest.2.0 z) (within-split start end hi z (omega arith) bounds.1)),
            cons-IsShort k hi start first rest.0 big more rest.2.1,
          ),
        )
  ]

step_of-pos : (s n : ℕ) → 1 ≤ n → step_of (pos s) n ≡ pos ((s + n - 1) / n)
unfolding ◌+ℤ◌ ◌-ℤ◌ div_ℤ
step_of-pos s n h = ground arith

step-covers : (s n : ℕ) → 1 ≤ n → s ≤ n * ((s + n - 1) / n)
step-covers s n h = grind (arith, div-add-mod (s + n - 1) n, mod-lt)

step-positive : (s n : ℕ) → 1 ≤ n → 1 ≤ s → 0 < (s + n - 1) / n
step-positive s n h p = grind (arith, step-covers s n h)

span_of-pos :
    (lo hi : ℤ) → lo ≤ℤ hi → (s : ℕ) × (span_of lo hi ≡ pos s) × (1 ≤ s) × (left hi lo ≡ s)
span_of-pos lo hi h = (
  pos_part (span_of lo hi),
  ground (arith, -ℤ_parts hi lo, +ℤ_parts (hi -ℤ lo) (pos 1)),
  ground (arith, -ℤ_parts hi lo, +ℤ_parts (hi -ℤ lo) (pos 1)),
  ground (
    arith,
    -ℤ_parts hi lo,
    +ℤ_parts (hi -ℤ lo) (pos 1),
    +ℤ_parts hi (pos 1),
    -ℤ_parts (hi +ℤ pos 1) lo,
  ),
)

abbrev IsPlan : ℕ → ℤ → ℤ → List Chunk → Type 0
IsPlan n lo hi cs = ((z : ℤ) → holders z cs ≡ within lo hi z) × (length cs ≤ n)

empty-IsPlan :
    (t : Table) (col : String) (n : ℕ) (lo hi : ℤ)
    → leb_ℤ lo hi ≡ false
    → (cs : List Chunk) × (range_chunks t col n lo hi ≡ some cs) × IsPlan n lo hi cs
unfolding range_chunks chunk_loop
empty-IsPlan t col n lo hi h = ([], rw h, ((λ z. sym (within-empty lo hi z h)), omega arith))

abbrev pieces_for : ℕ → ℕ → ℕ
pieces_for n s = max 1 (min n s)

range_chunks-pos :
    (t : Table) (col : String) (n s : ℕ) (lo hi : ℤ)
    → span_of lo hi ≡ pos s
    → range_chunks t col n lo hi
      ≡ chunk_loop (suc s) t col (pos ((s + pieces_for n s - 1) / pieces_for n s)) hi lo 0
unfolding range_chunks
range_chunks-pos t col n s lo hi e = rw (e, step_of-pos s (pieces_for n s) (omega arith))

pos-IsPlan :
    (t : Table) (col : String) (n s : ℕ) (lo hi : ℤ)
    → 1 ≤ n
    → span_of lo hi ≡ pos s
    → 1 ≤ s
    → left hi lo ≡ s
    → (cs : List Chunk) × (range_chunks t col n lo hi ≡ some cs) × IsPlan n lo hi cs
pos-IsPlan t col n s lo hi many es ps el =
    let p : ℕ = pieces_for n s in
    let k : ℕ = (s + p - 1) / p in
    let (cs, e, (parts, short)) =
      chunk_loop-Partitions t col k (step-positive s p (omega arith) ps) hi (suc s) lo 0
        (omega arith) in
    let few : length cs ≤ p = short p (rw el (step-covers s p (omega arith))) in
    (cs, rw (range_chunks-pos t col n s lo hi es) e, (parts, omega arith))

-- Whatever the bounds, the loop ends and its ranges are a plan.
range_chunks-IsPlan :
    (t : Table) (col : String) (n : ℕ) (lo hi : ℤ)
    → 1 ≤ n
    → (cs : List Chunk) × (range_chunks t col n lo hi ≡ some cs) × IsPlan n lo hi cs
range_chunks-IsPlan t col n lo hi many = elim (Bool-cases (leb_ℤ lo hi)) [
  | inr none_left ↦ empty-IsPlan t col n lo hi none_left
  | inl some_left ↦
      let (s, es, ps, el) = span_of-pos lo hi (ground arith) in
      pos-IsPlan t col n s lo hi many es ps el
]

-- Where `compute_chunks` splits a table by its key (a single key column, more than one chunk asked
-- for, bounds known), it ends with a plan of at most `n` ranges, and every integer key between the
-- bounds lies in exactly one of them, every other key in none.
pub compute_chunks_partition :
    (bounds : Table → String → Option (ℤ × ℤ)) (t : Table) (n : ℕ) {col : String} {lo hi : ℤ}
    → single_pk_col t ≡ some col
    → 1 < n
    → bounds t col ≡ some (lo, hi)
    → (cs : List Chunk) × (compute_chunks bounds t n ≡ some cs)
      × ((z : ℤ) → holders z cs ≡ within lo hi z)
      × (length cs ≤ n)
unfolding compute_chunks
compute_chunks_partition bounds t n {col} {lo} {hi} single many known =
    let (cs, e, (parts, few)) = range_chunks-IsPlan t col n lo hi (omega arith) in
    (cs, ground arith, parts, few)
