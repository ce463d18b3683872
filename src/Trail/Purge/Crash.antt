-- ===== src/Trail/Purge/Crash.antt =====
-- A purge, whole or cut short by a crash, loses no record that is still to be applied.
use any2helios_db.Prelude.{
  ℕ, zero, suc, ◌+◌, ◌-◌, ◌≤◌, ◌≡◌, refl, sym, ap, ◌∙◌, Option, none, some, List, [], ◌∷◌, ◌++◌,
  inl, inr, leb, ltb, if◌then◌else◌, arith, length, Bool-cases, take, drop,
}
use any2helios_db.Record.{ChangeRecord}
use any2helios_db.Record.Codec.{Text, Codec, NoNewline}
use any2helios_db.Trail.{Segment, Trail, read, active_index, encode_records}
use any2helios_db.Trail.Walk.{length-lines}
use any2helios_db.Trail.Reading.{take-nil, IsPositive, read-eq-limited}
use any2helios_db.Trail.Layout.{Layout, records_of, place, trail_of}
use any2helios_db.Trail.Purge.{
  Step, write_meta, remove, reconcile_purged, perform, perform_all, purge_steps, plan_purge,
  crashed_purge,
}
use any2helios_db.Trail.Purge.Leftovers.{
  IsOrdered, drop-append, purge_steps-cons, remove_at-head, active-above, active-cons,
  reconcile_purged-ordered, reconcile_purged-leftover, Keeps,
}

module _ (C : Codec) (frag : Text) where
  Keeps-segment :
      (cursor p i p' : ℕ) (rs : List ChangeRecord) (l l' : Layout)
      → p + length rs ≤ cursor
      → Keeps C frag cursor (p + length rs) l p' l'
      → Keeps C frag cursor p ((i, rs) ∷ l) p' l'
  Keeps-segment cursor p i p' rs l l' h k c le =
      let e : c - p ≡ length rs + (c - (p + length rs)) = omega arith in
      let (same, start) = k c le in
      (
        same
            ∙ sym (
                ap (λ n. drop n (rs ++ records_of l)) e
                ∙ drop-append rs (records_of l) (c - (p + length rs))),
        omega arith,
      )

  -- After recovery the trail is well formed and reads as before.
  abbrev Recovered : ℕ → ℕ → ℕ → Layout → Trail → Type 0
  Recovered cursor p rot l t =
      (p' : ℕ) × (last' : Option ℕ) × (l' : Layout) × (reconcile_purged t
        ≡ trail_of C p' last' rot l' frag)
      × IsOrdered last' l'
      × Keeps C frag cursor p l p' l'

  Recovered-segment :
      (cursor p rot i : ℕ) (rs : List ChangeRecord) (l : Layout) (t : Trail)
      → p + length rs ≤ cursor
      → Recovered cursor (p + length rs) rot l t
      → Recovered cursor p rot ((i, rs) ∷ l) t
  Recovered-segment cursor p rot i rs l t h (p', last', l', e, o, k) =
      (p', last', l', e, o, Keeps-segment cursor p i p' rs l l' h k)

  Recovered-same :
      (cursor p rot : ℕ) (last : Option ℕ) (l : Layout)
      → IsOrdered last l
      → Recovered cursor p rot l (trail_of C p last rot l frag)
  Recovered-same cursor p rot last l o =
      (p, last, l, reconcile_purged-ordered C frag p last rot l o, o, λ c le. (refl, refl))

  purge_steps-head :
      (cursor p i : ℕ) (rs : List ChangeRecord) (x : ℕ × List ChangeRecord) (l : Layout)
      → IsOrdered (some i) (x ∷ l)
      → purge_steps cursor
          (active_index (place C ((i, rs) ∷ x ∷ l) frag))
          p
          (place C ((i, rs) ∷ x ∷ l) frag)
        ≡ (if ltb cursor (p + length rs)
            then []
            else write_meta (p + length rs) i
              ∷ remove i
              ∷ purge_steps cursor
                  (active_index (place C (x ∷ l) frag))
                  (p + length rs)
                  (place C (x ∷ l) frag))
  purge_steps-head cursor p i rs (j, ss) l o =
      let tail : List Segment = place C ((j, ss) ∷ l) frag in
      ap (λ (a : ℕ). purge_steps cursor a p (place C ((i, rs) ∷ (j, ss) ∷ l) frag))
        (active-cons C frag i rs (j, ss) l)
      ∙ purge_steps-cons cursor (active_index tail) p i (encode_records C rs) tail
          (active-above C frag i j ss l o.0 o.1)
      ∙ rw (length-lines C 0 none rs)

  perform_all-segment :
      (p q i rot : ℕ) (last : Option ℕ) (rs : List ChangeRecord) (x : ℕ × List ChangeRecord)
      (l : Layout) (more : List Step)
      → perform_all
          (write_meta q i ∷ remove i ∷ more)
          (trail_of C p last rot ((i, rs) ∷ x ∷ l) frag)
        ≡ perform_all more (trail_of C q (some i) rot (x ∷ l) frag)
  unfolding perform_all perform
  perform_all-segment p q i rot last rs x l more =
      ap
        (λ (s : List Segment).
          perform_all more (record (trail_of C q (some i) rot [] []) { segments = s }))
        (remove_at-head i (encode_records C rs) (place C (x ∷ l) frag))

  perform_all-none : (t : Trail) → perform_all [] t ≡ t
  unfolding perform_all
  perform_all-none t = refl

  Recovered-cut :
      (k cursor p rot i : ℕ) (last : Option ℕ) (rs : List ChangeRecord) (x : ℕ × List ChangeRecord)
      (l : Layout) (more : List Step)
      → IsOrdered last ((i, rs) ∷ x ∷ l)
      → p + length rs ≤ cursor
      → ((n : ℕ)
          → Recovered cursor
              (p + length rs)
              rot
              (x ∷ l)
              (perform_all (take n more) (trail_of C (p + length rs) (some i) rot (x ∷ l) frag)))
      → Recovered cursor p rot ((i, rs) ∷ x ∷ l) (
          perform_all
            (take k (write_meta (p + length rs) i ∷ remove i ∷ more))
            (trail_of C p last rot ((i, rs) ∷ x ∷ l) frag))
  Recovered-cut zero cursor p rot i last rs x l more o h ih =
      rw (perform_all-none (trail_of C p last rot ((i, rs) ∷ x ∷ l) frag))
        (Recovered-same cursor p rot last ((i, rs) ∷ x ∷ l) o)
  Recovered-cut (suc zero) cursor p rot i last rs x l more o h ih =
      unfold perform_all perform in
      (
        p + length rs,
        some i,
        x ∷ l,
        reconcile_purged-leftover C frag (p + length rs) i rot rs x l o.1,
        o.1,
        Keeps-segment cursor p i (p + length rs) rs (x ∷ l) (x ∷ l) h (λ c le. (refl, refl)),
      )
  Recovered-cut (suc (suc k)) cursor p rot i last rs x l more o h ih =
      rw (perform_all-segment p (p + length rs) i rot last rs x l (take k more))
        (Recovered-segment cursor p rot i rs (x ∷ l) _ h (ih k))

  Recovered-none :
      (k cursor p rot : ℕ) (last : Option ℕ) (l : Layout)
      → IsOrdered last l
      → Recovered cursor p rot l (perform_all (take k []) (trail_of C p last rot l frag))
  Recovered-none k cursor p rot last l o =
      rw (take-nil {A = Step} k, perform_all-none (trail_of C p last rot l frag))
        (Recovered-same cursor p rot last l o)

  purge_steps-active :
      (cursor p i : ℕ) (rs : List ChangeRecord)
      → purge_steps cursor i p (place C ((i, rs) ∷ []) frag) ≡ []
  unfolding purge_steps
  purge_steps-active cursor p i rs = ground arith

  Recovered-steps :
      (k cursor p rot : ℕ) (last : Option ℕ) (l : Layout)
      → IsOrdered last l
      → Recovered cursor p rot l (
          perform_all
            (take k (purge_steps cursor (active_index (place C l frag)) p (place C l frag)))
            (trail_of C p last rot l frag))
  Recovered-steps k cursor p rot last [] o =
      unfold purge_steps in Recovered-none k cursor p rot last [] o
  Recovered-steps k cursor p rot last ((i, rs) ∷ []) o =
      unfold active_index in
      rw (purge_steps-active cursor p i rs) (Recovered-none k cursor p rot last ((i, rs) ∷ []) o)
  Recovered-steps k cursor p rot last ((i, rs) ∷ x ∷ l) o =
      elim (Bool-cases (ltb cursor (p + length rs))) [
        | inl stop ↦
            rw (purge_steps-head cursor p i rs x l o.1, stop)
              (Recovered-none k cursor p rot last ((i, rs) ∷ x ∷ l) o)
        | inr go ↦
            rw (purge_steps-head cursor p i rs x l o.1, go)
              (Recovered-cut k cursor p rot i last rs x l _ o (ground arith)
                (λ n. Recovered-steps n cursor (p + length rs) rot (some i) (x ∷ l) o.1))
      ]

  crashed_purge-Recovered :
      (k cursor p rot : ℕ) (last : Option ℕ) (l : Layout)
      → IsOrdered last l
      → Recovered cursor p rot l (crashed_purge (trail_of C p last rot l frag) cursor k)
  unfolding crashed_purge plan_purge
  crashed_purge-Recovered k cursor p rot last l o =
      rw (reconcile_purged-ordered C frag p last rot l o)
        (elim (Bool-cases (leb (length (place C l frag)) 1)) [
          | inl few ↦ rw few (Recovered-none k cursor p rot last l o)
          | inr many ↦ rw many (Recovered-steps k cursor p rot last l o)
        ])

-- A purge that is cut short after any number of its effects (or runs to its end) and then recovered
-- leaves the reads alone: for every cursor at or past the one that the purge was given, the same
-- records come back, with the same next cursor.
pub read-crashed_purge :
    (C : Codec) (frag : Text) (k cursor p rot : ℕ) (last : Option ℕ) (l : Layout) (c : ℕ)
    (limit : Option ℕ)
    → IsOrdered last l
    → NoNewline frag
    → IsPositive limit
    → cursor ≤ c
    → let t = trail_of C p last rot l frag in
      read C (reconcile_purged (crashed_purge t cursor k)) c limit ≡ read C t c limit
read-crashed_purge C frag k cursor p rot last l c limit o clean ok le =
    let (p', last', l', e, o', keeps) = crashed_purge-Recovered C frag k cursor p rot last l o in
    let (same, start) = keeps c le in
    rw
      (
        e,
        read-eq-limited C p last rot l frag c limit clean ok,
        read-eq-limited C p' last' rot l' frag c limit clean ok,
        same,
        start,
      )
      refl
