-- ===== src/Apply/Hold.antt =====
-- What `_hold_incomplete_txn_tail` lets pass closes a source transaction.
use any2helios_db.Prelude.{
  ℕ, zero, suc, ◌+◌, ◌-◌, ◌≤◌, ◌≡◌, refl, sym, ap, subst, ◌∙◌, Bool, true, false, ◌&&◌, ◌||◌,
  Option, none, some, List, [], ◌∷◌, ◌++◌, append-nil, ◌==◌, if◌then◌else◌, arith, length,
  length-take, take, drop, take-append-drop, Bool-cases, inl, inr,
}
use any2helios_db.Record.{ChangeRecord}
use any2helios_db.Trail.{Read}
use any2helios_db.Trail.Reading.{limited, IsPositive}
use any2helios_db.Apply.{
  Reader, is_none, same_txn, last_record, keep_length, starts_other, hold_or_pass,
  hold_incomplete_txn_tail,
}
use any2helios_db.Apply.Runs.{AllTxn, ChangesTxn, same_txn_refl}

-- A log whose record `i` stands on line `base + i`, and a reader of it.
pub record Log : Type 0 where
  pub records : List ChangeRecord
  pub base : ℕ
  pub rd : Reader
  pub reads :
      (xs rest : List ChangeRecord) (limit : Option ℕ)
      → xs ++ rest ≡ records
      → IsPositive limit
      → rd (base + length xs) limit
        ≡ some (limited limit rest, base + length xs + length (limited limit rest))

-- The last record closes its transaction: it is of none, it says so, or another follows.
abbrev pub closes : List ChangeRecord → List ChangeRecord → Bool
closes [] rest = true
closes (r ∷ rs) rest =
    let last = last_record r rs in
    is_none last.txn_id || last.txn_end || starts_other last.txn_id rest

-- All of the log that is left is one transaction, which has not ended.
abbrev pub IsOpen : List ChangeRecord → Type 0
IsOpen [] = Unit
IsOpen (r ∷ rs) =
    AllTxn (last_record r rs).txn_id (r ∷ rs)
    × (is_none (last_record r rs).txn_id ≡ false)
    × ((last_record r rs).txn_end ≡ false)

pub same_txn→eq : (a b : Option ℕ) → same_txn a b ≡ true → a ≡ b
same_txn→eq none none h = refl
same_txn→eq none (some b) h = absurd (ground arith)
same_txn→eq (some a) none h = absurd (ground arith)
same_txn→eq (some a) (some b) h = ground arith

-- `keep_length` is zero only where all the records go.
keep_length-all : (tid : Option ℕ) (rs : List ChangeRecord) → keep_length tid rs ≡ 0 → AllTxn tid rs
unfolding keep_length
keep_length-all tid [] h = tt
keep_length-all tid (r ∷ rs) h =
    elim (Bool-cases (keep_length tid rs == 0 && same_txn r.txn_id tid)) [
      | inl gone ↦ (ground arith, keep_length-all tid rs (ground arith))
      | inr stays ↦ absurd (ground arith)
    ]

keep_length-le : (tid : Option ℕ) (rs : List ChangeRecord) → keep_length tid rs ≤ length rs
unfolding keep_length
keep_length-le tid [] = omega arith
keep_length-le tid (r ∷ rs) = ground (arith, keep_length-le tid rs)

other-txn :
    (a b : Option ℕ) (tid : Option ℕ)
    → same_txn a tid ≡ false
    → same_txn b tid ≡ true
    → same_txn b a ≡ false
other-txn a b tid h e = elim (Bool-cases (same_txn b a)) [
  | inl same ↦
      let eq : tid ≡ a = sym (same_txn→eq b tid e) ∙ same_txn→eq b a same in
      let refl_a : same_txn a tid ≡ true = rw eq (same_txn_refl a) in absurd (ground arith)
  | inr other ↦ other
]

-- One step of `keep_length`, where `n` is what it keeps of the rest.
closes-step :
    (tid : Option ℕ) (n : ℕ) (r q : ChangeRecord) (rs : List ChangeRecord)
    → (n ≡ 0 → AllTxn tid (q ∷ rs))
    → closes (take n (q ∷ rs)) (drop n (q ∷ rs)) ≡ true
    → let k = if n == 0 && same_txn r.txn_id tid then 0 else suc n in
      closes (take k (r ∷ q ∷ rs)) (drop k (r ∷ q ∷ rs)) ≡ true
unfolding starts_other
closes-step tid zero r q rs all h = elim (Bool-cases (same_txn r.txn_id tid)) [
  | inl same ↦ rw same refl
  | inr other ↦
      let o : same_txn q.txn_id r.txn_id ≡ false =
        other-txn r.txn_id q.txn_id tid other (all refl).0 in
      rw (other, o) (ground arith)
]
closes-step tid (suc n) r q rs all h = let e : (suc n == 0) ≡ false = ground arith in rw e h

-- What `keep_length` keeps closes a transaction.
keep_length-closes :
    (tid : Option ℕ) (r : ChangeRecord) (rs : List ChangeRecord)
    → same_txn (last_record r rs).txn_id tid ≡ true
    → closes (take (keep_length tid (r ∷ rs)) (r ∷ rs)) (drop (keep_length tid (r ∷ rs)) (r ∷ rs))
      ≡ true
unfolding keep_length
keep_length-closes tid r [] h = rw h refl
keep_length-closes tid r (q ∷ rs) h =
    closes-step tid (keep_length tid (q ∷ rs)) r q rs (keep_length-all tid (q ∷ rs))
      (keep_length-closes tid q rs h)

-- What the hold asks of the next record.
abbrev pub Edge : List ChangeRecord → List ChangeRecord → Type 0
Edge [] rest = rest ≡ []
Edge (r ∷ rs) rest =
    is_none (last_record r rs).txn_id ≡ false → ChangesTxn (last_record r rs).txn_id rest

abbrev pub Aligned : List ChangeRecord → ℕ → Read → Type 0
Aligned all base found =
    (ys : List ChangeRecord) × (zs : List ChangeRecord) × (ys ++ zs ≡ all)
    × (found ≡ some (ys, base + length ys))
    × (closes ys zs ≡ true)
    × (ys ≡ [] → IsOpen zs)

nonempty-take-zero :
    (k : ℕ) (r : ChangeRecord) (rs : List ChangeRecord) → take k (r ∷ rs) ≡ [] → k ≡ 0
nonempty-take-zero zero r rs h = refl
nonempty-take-zero (suc k) r rs h = absurd (ground arith)

module _ (L : Log) where
  open L use {records, base, rd, reads}

  hold-cut :
      (r : ChangeRecord) (rs : List ChangeRecord)
      → is_none (last_record r rs).txn_id ≡ false
      → (last_record r rs).txn_end ≡ false
      → let k = keep_length (last_record r rs).txn_id (r ∷ rs) in
        Aligned
          (r ∷ rs)
          base
          (some (take k (r ∷ rs), base + length (r ∷ rs) - (length (r ∷ rs) - k)))
  hold-cut r rs tagged running =
      let tid : Option ℕ = (last_record r rs).txn_id in
      let k : ℕ = keep_length tid (r ∷ rs) in
      let kept : ℕ = length (take k (r ∷ rs)) in
      let at : base + length (r ∷ rs) - (length (r ∷ rs) - k) ≡ base + kept =
        omega (arith, length-take k (r ∷ rs), keep_length-le tid (r ∷ rs)) in
      (
        take k (r ∷ rs),
        drop k (r ∷ rs),
        take-append-drop k (r ∷ rs),
        ap (λ (c : ℕ). some (take k (r ∷ rs), c)) at,
        keep_length-closes tid r rs (same_txn_refl tid),
        λ e.
            let zero_k : k ≡ 0 = nonempty-take-zero k r rs e in
            subst (λ (m : ℕ). IsOpen (drop m (r ∷ rs))) (sym zero_k)
              (keep_length-all tid (r ∷ rs) zero_k, tagged, running),
      )

  hold_or_pass-Aligned :
      (r : ChangeRecord) (rs rest : List ChangeRecord) (cursor : ℕ)
      → (r ∷ rs) ++ rest ≡ records
      → is_none (last_record r rs).txn_id ≡ false
      → (last_record r rs).txn_end ≡ false
      → ChangesTxn (last_record r rs).txn_id rest
      → Aligned records base (
          hold_or_pass
            (last_record r rs).txn_id
            (r ∷ rs)
            (base + length (r ∷ rs))
            (some (take 1 rest, cursor)))
  unfolding hold_or_pass starts_other
  hold_or_pass-Aligned r rs [] cursor e tagged running changes =
      subst
        (λ (all : List ChangeRecord). Aligned all base (
          hold_or_pass (last_record r rs).txn_id (r ∷ rs) (base + length (r ∷ rs))
            (some ([], cursor))))
        (sym (append-nil (r ∷ rs)) ∙ e) (hold-cut r rs tagged running)
  hold_or_pass-Aligned r rs (q ∷ rest) cursor e tagged running changes =
      rw changes
        (r ∷ rs, q ∷ rest, e, refl, (rw changes (ground arith)), λ h. absurd (ground arith))

  pub hold-Aligned :
      (xs rest : List ChangeRecord)
      → xs ++ rest ≡ records
      → Edge xs rest
      → Aligned records base (hold_incomplete_txn_tail rd xs (base + length xs))
  unfolding hold_incomplete_txn_tail
  hold-Aligned [] rest e edge = ([], records, refl, refl, refl, λ _. subst IsOpen (sym edge ∙ e) tt)
  hold-Aligned (r ∷ rs) rest e edge =
      elim (Bool-cases (is_none (last_record r rs).txn_id || (last_record r rs).txn_end)) [
        | inl closed ↦ rw closed (r ∷ rs, rest, e, refl, ground arith, λ h. absurd (ground arith))
        | inr running ↦
            rw (running, reads (r ∷ rs) rest (some 1) e (omega arith))
              (hold_or_pass-Aligned r rs rest (base + length (r ∷ rs) + length (take 1 rest)) e
                (ground arith) (ground arith) (edge (ground arith)))
      ]
