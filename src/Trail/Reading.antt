-- ===== src/Trail/Reading.antt =====
-- `read` refines "drop what the cursor has passed, take what the limit allows".
use Prim.Native.Nat.{max}
use any2helios_db.Prelude.{
  ℕ, zero, suc, ◌+◌, ◌-◌, ◌≤◌, ◌<◌, ◌≡◌, refl, ◌∙◌, true, false, Option, none, some, List, [], ◌∷◌,
  ◌++◌, map, append-nil, append_assoc, inl, inr, leb, arith, length, length-append, Bool-cases,
  take, drop,
}
use any2helios_db.Record.{ChangeRecord}
use any2helios_db.Record.Codec.{Text, Codec, NoNewline}
use any2helios_db.Trail.{Read, is_full, read}
use any2helios_db.Trail.Walk.{settle, walk, read_segments-place}
use any2helios_db.Trail.Layout.{Layout, records_of, trail_of}

-- A limit, as a bound on the records; `none` is no bound.
abbrev pub limited {ℓ} : {A : Type ℓ} → Option ℕ → List A → List A
limited none xs = xs
limited (some n) xs = take n xs

-- The engine passes no limit or a positive one.
abbrev pub IsPositive : Option ℕ → Type 0
IsPositive none = Unit
IsPositive (some n) = 1 ≤ n

pub drop-nil {ℓ} : {A : Type ℓ} (n : ℕ) → drop {A = A} n [] ≡ []
drop-nil zero = refl
drop-nil (suc n) = refl

pub take-nil {ℓ} : {A : Type ℓ} (n : ℕ) → take {A = A} n [] ≡ []
take-nil zero = refl
take-nil (suc n) = refl

limited-nil {ℓ} : {A : Type ℓ} (o : Option ℕ) → limited {A = A} o [] ≡ []
limited-nil none = refl
limited-nil (some n) = take-nil n

-- What is left of the limit once `out` is collected.
abbrev remaining : Option ℕ → List ChangeRecord → Option ℕ
remaining none out = none
remaining (some n) out = some (n - length out)

abbrev HasRoom : Option ℕ → List ChangeRecord → Type 0
HasRoom none out = Unit
HasRoom (some n) out = length out < n

-- What the limit leaves of the records behind the cursor.
abbrev batch : ℕ → Option ℕ → List ChangeRecord → ℕ → List ChangeRecord → List ChangeRecord
batch cursor limit rs g out = limited (remaining limit out) (drop (cursor - g) rs)

batch-skip :
    (cursor : ℕ) (limit : Option ℕ) (r : ChangeRecord) (rs : List ChangeRecord) (g : ℕ)
    (out : List ChangeRecord)
    → suc g ≤ cursor
    → batch cursor limit (r ∷ rs) g out ≡ batch cursor limit rs (suc g) out
batch-skip cursor limit r rs g out h =
    let e : cursor - g ≡ suc (cursor - suc g) = omega arith in rw e refl

batch-full :
    (cursor : ℕ) (limit : Option ℕ) (r c : ChangeRecord) (rs : List ChangeRecord) (g : ℕ)
    (out : List ChangeRecord)
    → HasRoom limit out
    → leb (suc g) cursor ≡ false
    → is_full limit (out ++ c ∷ []) ≡ true
    → batch cursor limit (r ∷ rs) g out ≡ r ∷ []
batch-full cursor none r c rs g out room h full = cc
batch-full cursor (some n) r c rs g out room h full =
    let e : cursor - g ≡ 0 = ground arith in
    let l : n - length out ≡ 1 = ground (arith, length-append out (c ∷ [])) in rw (e, l) refl

batch-more :
    (cursor : ℕ) (limit : Option ℕ) (r c : ChangeRecord) (rs : List ChangeRecord) (g : ℕ)
    (out : List ChangeRecord)
    → HasRoom limit out
    → leb (suc g) cursor ≡ false
    → is_full limit (out ++ c ∷ []) ≡ false
    → (batch cursor limit (r ∷ rs) g out ≡ r ∷ batch cursor limit rs (suc g) (out ++ c ∷ []))
      × HasRoom limit (out ++ c ∷ [])
batch-more cursor none r c rs g out room h full =
    let e : cursor - g ≡ 0 = ground arith in
    let f : cursor - suc g ≡ 0 = ground arith in (rw (e, f) refl, tt)
batch-more cursor (some n) r c rs g out room h full =
    let e : cursor - g ≡ 0 = ground arith in
    let f : cursor - suc g ≡ 0 = ground arith in
    let l : n - length out ≡ suc (n - length (out ++ c ∷ [])) =
      ground (arith, length-append out (c ∷ [])) in
    (rw (e, f, l) refl, ground arith)

module _ (C : Codec) (cursor : ℕ) (limit : Option ℕ) where
  open C use {canon}

  abbrev answer : List ChangeRecord → ℕ → List ChangeRecord → Read
  answer found g out = some (out ++ map canon found, max cursor g + length found)

  answer-skip :
      (found : List ChangeRecord) (g : ℕ) (out : List ChangeRecord)
      → suc g ≤ cursor
      → answer found (suc g) out ≡ answer found g out
  answer-skip found g out h = let e : max cursor (suc g) ≡ max cursor g = omega arith in rw e

  answer-more :
      (r : ChangeRecord) (found : List ChangeRecord) (g : ℕ) (out : List ChangeRecord)
      → leb (suc g) cursor ≡ false
      → answer found (suc g) (out ++ canon r ∷ []) ≡ answer (r ∷ found) g out
  answer-more r found g out h =
      let e : max cursor (suc g) + length found ≡ max cursor g + suc (length found) =
        ground arith in
      rw (e, append_assoc out (canon r ∷ []) (map canon found))

  settle-walk :
      (rs : List ChangeRecord) (g : ℕ) (out : List ChangeRecord)
      → HasRoom limit out
      → settle cursor (walk C cursor limit rs g out) ≡ answer (batch cursor limit rs g out) g out
  unfolding walk
  settle-walk [] g out h =
      rw (drop-nil (cursor - g), limited-nil (remaining limit out), append-nil out) (ground arith)
  settle-walk (r ∷ rs) g out h = elim (Bool-cases (leb (suc g) cursor)) [
    | inl skip ↦
        rw (skip, batch-skip cursor limit r rs g out (ground arith))
          (settle-walk rs (suc g) out h ∙ answer-skip _ g out (ground arith))
    | inr stay ↦ elim (Bool-cases (is_full limit (out ++ canon r ∷ []))) [
      | inl full ↦
          rw (stay, full, batch-full cursor limit r (canon r) rs g out h stay full) (ground arith)
      | inr room ↦
          let (e, h') = batch-more cursor limit r (canon r) rs g out h stay room in
          rw (stay, room, e)
            (settle-walk rs (suc g) (out ++ canon r ∷ []) h' ∙ answer-more r _ g out stay)
    ]
  ]

-- Reading a well-formed trail, torn fragment or not, never fails: it returns the records behind the
-- cursor in order, up to the limit, and the cursor just past the last of them. The purged lines
-- count as passed, and a cursor past the end stays where it is.
pub read-eq-limited :
    (C : Codec) (purged : ℕ) (last : Option ℕ) (rotate : ℕ) (l : Layout) (frag : Text) (cursor : ℕ)
    (limit : Option ℕ)
    → NoNewline frag
    → IsPositive limit
    → let found = limited limit (drop (cursor - purged) (records_of l)) in
      read C (trail_of C purged last rotate l frag) cursor limit
      ≡ some (map C.canon found, max cursor purged + length found)
unfolding read
read-eq-limited C purged last rotate l frag cursor none clean ok =
    read_segments-place C cursor none l frag purged [] clean
    ∙ settle-walk C cursor none (records_of l) purged [] tt
read-eq-limited C purged last rotate l frag cursor (some n) clean ok =
    read_segments-place C cursor (some n) l frag purged [] clean
    ∙ settle-walk C cursor (some n) (records_of l) purged [] (omega arith)
    ∙ (let e : n - 0 ≡ n = omega arith in rw e)
