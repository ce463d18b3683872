-- ===== src/Apply/Runs.antt =====
-- The runs of the transactions in a list of records.
use any2helios_db.Prelude.{
  ℕ, ◌≤◌, ◌≡◌, refl, ap, ◌∙◌, Bool, true, false, Option, none, some, List, [], ◌∷◌, ◌++◌, arith,
  take, drop, Bool-cases, inl, inr, not, ◌&&◌, if◌then◌else◌,
}
use any2helios_db.Record.{ChangeRecord}
use any2helios_db.Apply.{is_none, same_txn, same_prefix, last_record}

abbrev pub AllTxn : Option ℕ → List ChangeRecord → Type 0
AllTxn tid [] = Unit
AllTxn tid (r ∷ rs) = (same_txn r.txn_id tid ≡ true) × AllTxn tid rs

-- The next record, if there is one, is not of the transaction.
abbrev pub ChangesTxn : Option ℕ → List ChangeRecord → Type 0
ChangesTxn tid [] = Unit
ChangesTxn tid (r ∷ rs) = same_txn r.txn_id tid ≡ false

-- The run of a transaction at the head of a list.
pub same_prefix-splits :
    (tid : Option ℕ) (rs : List ChangeRecord)
    → AllTxn tid (take (same_prefix tid rs) rs) × ChangesTxn tid (drop (same_prefix tid rs) rs)
unfolding same_prefix
same_prefix-splits tid [] = (tt, tt)
same_prefix-splits tid (r ∷ rs) = elim (Bool-cases (same_txn r.txn_id tid)) [
  | inl same ↦ rw same ((same, (same_prefix-splits tid rs).0), (same_prefix-splits tid rs).1)
  | inr other ↦ rw other (tt, other)
]

pub same_txn_refl : (t : Option ℕ) → same_txn t t ≡ true
same_txn_refl none = refl
same_txn_refl (some a) = ground arith

same_prefix-positive :
    (r : ChangeRecord) (rs : List ChangeRecord) → 1 ≤ same_prefix r.txn_id (r ∷ rs)
unfolding same_prefix
same_prefix-positive r rs = rw (same_txn_refl r.txn_id) (omega arith)

-- The record behind another of the same transaction is in its run; an untagged record is alone.
abbrev pub joins : ChangeRecord → ChangeRecord → Bool
joins r q = not (is_none r.txn_id) && same_txn r.txn_id q.txn_id

abbrev push : ChangeRecord → List (List ChangeRecord) → List (List ChangeRecord)
push r [] = (r ∷ []) ∷ []
push r ([] ∷ runs) = (r ∷ []) ∷ [] ∷ runs
push r ((q ∷ g) ∷ runs) = if joins r q then (r ∷ q ∷ g) ∷ runs else (r ∷ []) ∷ (q ∷ g) ∷ runs

-- The runs of the transactions.
abbrev pub txn_runs : List ChangeRecord → List (List ChangeRecord)
txn_runs [] = []
txn_runs (r ∷ rs) = push r (txn_runs rs)

abbrev pub join_runs : List (List ChangeRecord) → List ChangeRecord
join_runs [] = []
join_runs (g ∷ runs) = g ++ join_runs runs

abbrev pub IsRun : List ChangeRecord → Type 0
IsRun [] = ⊥
IsRun (r ∷ []) = Unit
IsRun (r ∷ q ∷ g) = (joins r q ≡ true) × IsRun (q ∷ g)

abbrev pub Breaks : List ChangeRecord → List ChangeRecord → Type 0
Breaks (r ∷ rs) (q ∷ qs) = joins (last_record r rs) q ≡ false
Breaks _ _ = ⊥

-- Each is a run, and ends where the transaction does.
abbrev pub AreTxnRuns : List (List ChangeRecord) → Type 0
AreTxnRuns [] = Unit
AreTxnRuns (g ∷ []) = IsRun g
AreTxnRuns (g ∷ h ∷ runs) = IsRun g × Breaks g h × AreTxnRuns (h ∷ runs)

join_runs-push :
    (r : ChangeRecord) (runs : List (List ChangeRecord))
    → join_runs (push r runs) ≡ r ∷ join_runs runs
join_runs-push r [] = refl
join_runs-push r ([] ∷ runs) = refl
join_runs-push r ((q ∷ g) ∷ runs) = elim (Bool-cases (joins r q)) [
  | inl on ↦ rw on refl
  | inr off ↦ rw off refl
]

pub join_runs-txn_runs : (rs : List ChangeRecord) → join_runs (txn_runs rs) ≡ rs
join_runs-txn_runs [] = refl
join_runs-txn_runs (r ∷ rs) =
    join_runs-push r (txn_runs rs) ∙ ap (λ (t : List ChangeRecord). r ∷ t) (join_runs-txn_runs rs)

AreTxnRuns-push :
    (r : ChangeRecord) (runs : List (List ChangeRecord))
    → AreTxnRuns runs
    → AreTxnRuns (push r runs)
AreTxnRuns-push r [] h = tt
AreTxnRuns-push r ([] ∷ []) h = elim h [ ]
AreTxnRuns-push r ([] ∷ g ∷ runs) h = elim h.0 [ ]
AreTxnRuns-push r ((q ∷ g) ∷ []) h = elim (Bool-cases (joins r q)) [
  | inl on ↦ rw on (on, h)
  | inr off ↦ rw off (tt, off, h)
]
AreTxnRuns-push r ((q ∷ g) ∷ k ∷ runs) h = elim (Bool-cases (joins r q)) [
  | inl on ↦ rw on ((on, h.0), h.1, h.2)
  | inr off ↦ rw off (tt, off, h)
]

pub AreTxnRuns-txn_runs : (rs : List ChangeRecord) → AreTxnRuns (txn_runs rs)
AreTxnRuns-txn_runs [] = tt
AreTxnRuns-txn_runs (r ∷ rs) = AreTxnRuns-push r (txn_runs rs) (AreTxnRuns-txn_runs rs)

pub push-untagged :
    (r : ChangeRecord) (runs : List (List ChangeRecord))
    → is_none r.txn_id ≡ true
    → push r runs ≡ (r ∷ []) ∷ runs
push-untagged r [] h = refl
push-untagged r ([] ∷ runs) h = refl
push-untagged r ((q ∷ g) ∷ runs) h = rw h refl

push-other :
    (r q : ChangeRecord) (runs : List (List ChangeRecord))
    → joins r q ≡ false
    → push r (push q runs) ≡ (r ∷ []) ∷ push q runs
push-other r q [] h = rw h refl
push-other r q ([] ∷ runs) h = rw h refl
push-other r q ((p ∷ g) ∷ runs) h = elim (Bool-cases (joins q p)) [
  | inl on ↦ rw (on, h) refl
  | inr off ↦ rw (off, h) refl
]

same_txn-eq : (a : Option ℕ) (t : ℕ) → same_txn a (some t) ≡ true → a ≡ some t
same_txn-eq none t h = ground arith
same_txn-eq (some a) t h = ground arith

same_txn-other : (a : Option ℕ) (t : ℕ) → same_txn a (some t) ≡ false → same_txn (some t) a ≡ false
same_txn-other none t h = refl
same_txn-other (some a) t h = ground arith

-- The first run is the prefix that the loop takes.
pub txn_runs-same_prefix :
    (t : ℕ) (r : ChangeRecord) (rs : List ChangeRecord)
    → r.txn_id ≡ some t
    → txn_runs (r ∷ rs)
      ≡ (r ∷ take (same_prefix (some t) rs) rs) ∷ txn_runs (drop (same_prefix (some t) rs) rs)
unfolding same_prefix
txn_runs-same_prefix t r [] is = refl
txn_runs-same_prefix t r (q ∷ rs) is = elim (Bool-cases (same_txn q.txn_id (some t))) [
  | inl same ↦
      let also = same_txn-eq q.txn_id t same in
      let on : joins r q ≡ true = rw (is, also) (same_txn_refl (some t)) in
      rw (same, txn_runs-same_prefix t q rs also, on) refl
  | inr other ↦
      let off : joins r q ≡ false = rw is (same_txn-other q.txn_id t other) in
      rw (other, push-other r q (txn_runs rs) off) refl
]
