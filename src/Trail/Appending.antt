-- ===== src/Trail/Appending.antt =====
-- `append` adds its records at the end, whether it rotates or not.
use any2helios_db.Prelude.{
  ℕ, suc, ◌+◌, ◌<◌, ◌≡◌, refl, sym, ap, ◌∙◌, true, false, Option, none, some, List, [], ◌∷◌, ◌++◌,
  map, append-nil, append_assoc, inl, inr, ◌==◌, arith, length, drop, max, ◌-◌, Bool-cases,
}
use any2helios_db.Record.{ChangeRecord}
use any2helios_db.Record.Codec.{Text, Codec}
use any2helios_db.Trail.{
  Segment, Trail, active_index, append_at, append, must_rotate, is_listed, active_size,
  encode_records, read,
}
use any2helios_db.Trail.Lines.{encode_records-append}
use any2helios_db.Trail.Layout.{Layout, records_of, place, trail_of}
use any2helios_db.Trail.Purge.Leftovers.{IsOrdered}
use any2helios_db.Trail.Reading.{IsPositive, limited, read-eq-limited}

abbrev extend_last : Layout → List ChangeRecord → Layout
extend_last [] new = []
extend_last ((i, rs) ∷ []) new = (i, rs ++ new) ∷ []
extend_last (x ∷ y ∷ l) new = x ∷ extend_last (y ∷ l) new

abbrev pub last_index : Layout → ℕ
last_index [] = 0
last_index ((i, rs) ∷ []) = i
last_index (x ∷ y ∷ l) = last_index (y ∷ l)

records_of-extend_last :
    (x : ℕ × List ChangeRecord) (l : Layout) (new : List ChangeRecord)
    → records_of (extend_last (x ∷ l) new) ≡ records_of (x ∷ l) ++ new
records_of-extend_last (i, rs) [] new = rw (append-nil (rs ++ new), append-nil rs)
records_of-extend_last (i, rs) (y ∷ l) new =
    rw (records_of-extend_last y l new, append_assoc rs (records_of (y ∷ l)) new)

records_of-append : (l m : Layout) → records_of (l ++ m) ≡ records_of l ++ records_of m
records_of-append [] m = refl
records_of-append ((i, rs) ∷ l) m =
    rw (records_of-append l m, append_assoc rs (records_of l) (records_of m))

IsOrdered-extend_last :
    (last : Option ℕ) (l : Layout) (new : List ChangeRecord)
    → IsOrdered last l
    → IsOrdered last (extend_last l new)
IsOrdered-extend_last last [] new o = o
IsOrdered-extend_last last ((i, rs) ∷ []) new o = o
IsOrdered-extend_last last ((i, rs) ∷ y ∷ l) new o =
    (o.0, IsOrdered-extend_last (some i) (y ∷ l) new o.1)

IsOrdered-rotate :
    (last : Option ℕ) (x : ℕ × List ChangeRecord) (l : Layout) (new : List ChangeRecord)
    → IsOrdered last (x ∷ l)
    → IsOrdered last ((x ∷ l) ++ (suc (last_index (x ∷ l)), new) ∷ [])
IsOrdered-rotate last (i, rs) [] new o = (o.0, (omega arith, tt))
IsOrdered-rotate last (i, rs) (y ∷ l) new o = (o.0, IsOrdered-rotate (some i) y l new o.1)

last_index-above :
    (m i : ℕ) (rs : List ChangeRecord) (l : Layout)
    → m < i
    → IsOrdered (some i) l
    → m < last_index ((i, rs) ∷ l)
last_index-above m i rs [] h o = h
last_index-above m i rs ((j, ss) ∷ l) h o = last_index-above m j ss l (omega arith) o.1

module _ (C : Codec) where
  active_index-place : (l : Layout) (frag : Text) → active_index (place C l frag) ≡ last_index l
  unfolding active_index
  active_index-place [] frag = refl
  active_index-place ((i, rs) ∷ []) frag = refl
  active_index-place (x ∷ y ∷ []) frag = refl
  active_index-place (x ∷ y ∷ z ∷ l) frag = active_index-place (y ∷ z ∷ l) frag

  append_at-skip :
      (k i : ℕ) (text c : Text) (tail : List Segment)
      → i < k
      → append_at C k text (record { index = i; content = c } ∷ tail)
        ≡ record { index = i; content = c } ∷ append_at C k text tail
  unfolding append_at
  append_at-skip k i text c tail h = let off : (i == k) ≡ false = ground arith in rw off

  append_at-hit :
      (i : ℕ) (text c : Text)
      → append_at C i text (record { index = i; content = c } ∷ [])
        ≡ record { index = i; content = c ++ text } ∷ []
  unfolding append_at
  append_at-hit i text c = let on : (i == i) ≡ true = ground arith in rw on

  append_at-end :
      (k : ℕ) (text : Text) → append_at C k text [] ≡ record { index = k; content = text } ∷ []
  unfolding append_at
  append_at-end k text = refl

  abbrev closed : ℕ → List ChangeRecord → Segment
  closed i rs = record { index = i; content = encode_records C rs }

  place-extend_last :
      (i : ℕ) (rs new : List ChangeRecord) (y : ℕ × List ChangeRecord) (l : Layout)
      → place C ((i, rs) ∷ extend_last (y ∷ l) new) []
        ≡ closed i rs ∷ place C (extend_last (y ∷ l) new) []
  place-extend_last i rs new y [] = refl
  place-extend_last i rs new y (z ∷ l) = refl

  append_at-active :
      (last : Option ℕ) (x : ℕ × List ChangeRecord) (l : Layout) (new : List ChangeRecord)
      → IsOrdered last (x ∷ l)
      → append_at C (last_index (x ∷ l)) (encode_records C new) (place C (x ∷ l) [])
        ≡ place C (extend_last (x ∷ l) new) []
  append_at-active last (i, rs) [] new o =
      rw
        (
          append-nil (encode_records C rs),
          append-nil (encode_records C (rs ++ new)),
          encode_records-append C rs new,
        )
        (append_at-hit i (encode_records C new) (encode_records C rs))
  append_at-active last (i, rs) ((j, ss) ∷ l) new o =
      let above : i < last_index ((j, ss) ∷ l) = last_index-above i j ss l o.1.0 o.1.1 in
      append_at-skip (last_index ((j, ss) ∷ l)) i (encode_records C new) (encode_records C rs)
        (place C ((j, ss) ∷ l) []) above
      ∙ ap (λ (t : List Segment). closed i rs ∷ t) (append_at-active (some i) (j, ss) l new o.1)
      ∙ sym (place-extend_last i rs new (j, ss) l)

  append_at-new :
      (last : Option ℕ) (k : ℕ) (x : ℕ × List ChangeRecord) (l : Layout) (new : List ChangeRecord)
      → IsOrdered last (x ∷ l)
      → last_index (x ∷ l) < k
      → append_at C k (encode_records C new) (place C (x ∷ l) [])
        ≡ place C ((x ∷ l) ++ (k, new) ∷ []) []
  append_at-new last k (i, rs) [] new o h =
      rw (append-nil (encode_records C rs), append-nil (encode_records C new))
        (append_at-skip k i (encode_records C new) (encode_records C rs) [] h
          ∙ ap (λ (t : List Segment). closed i rs ∷ t) (append_at-end k (encode_records C new)))
  append_at-new last k (i, rs) ((j, ss) ∷ l) new o h =
      let above : i < last_index ((j, ss) ∷ l) = last_index-above i j ss l o.1.0 o.1.1 in
      append_at-skip k i (encode_records C new) (encode_records C rs) (place C ((j, ss) ∷ l) [])
        (omega arith)
      ∙ ap (λ (t : List Segment). closed i rs ∷ t) (append_at-new (some i) k (j, ss) l new o.1 h)

  -- `append` as it acts on the records.
  abbrev Appended : Option ℕ → ℕ → ℕ → Layout → List ChangeRecord → Trail × ℕ → Type 0
  Appended last p rot l new (t, n) =
      (l' : Layout) × (t ≡ trail_of C p last rot l' [])
      × (records_of l' ≡ records_of l ++ new)
      × IsOrdered last l'
      × (n ≡ length new)

  append-Appended :
      (last : Option ℕ) (p rot : ℕ) (x : ℕ × List ChangeRecord) (l : Layout)
      (new : List ChangeRecord)
      → IsOrdered last (x ∷ l)
      → last_index (x ∷ l) < 99999
      → Appended last p rot (x ∷ l) new (append C (trail_of C p last rot (x ∷ l) []) new)
  unfolding append
  append-Appended last p rot x l [] o room =
      (x ∷ l, refl, sym (append-nil (records_of (x ∷ l))), o, refl)
  append-Appended last p rot x l (r ∷ rs) o room =
      let next : is_listed C (suc (last_index (x ∷ l))) ≡ true = ground arith in
      let same : is_listed C (last_index (x ∷ l)) ≡ true = ground arith in
      let here : active_index (place C (x ∷ l) []) ≡ last_index (x ∷ l) =
        active_index-place (x ∷ l) [] in
      let t : Trail = trail_of C p last rot (x ∷ l) [] in
      elim (Bool-cases (must_rotate C t)) [
        | inl over ↦ (
          (x ∷ l) ++ (suc (last_index (x ∷ l)), r ∷ rs) ∷ [],
          rw (over, here, next)
              (ap (λ (s : List Segment). record t { segments = s })
                (append_at-new last (suc (last_index (x ∷ l))) x l (r ∷ rs) o (omega arith))),
          rw (
            records_of-append (x ∷ l) ((suc (last_index (x ∷ l)), r ∷ rs) ∷ []),
            append-nil (r ∷ rs),
          ),
          IsOrdered-rotate last x l (r ∷ rs) o,
          refl,
        )
        | inr fits ↦ (
          extend_last (x ∷ l) (r ∷ rs),
          rw (fits, here, same)
              (ap (λ (s : List Segment). record t { segments = s })
                (append_at-active last x l (r ∷ rs) o)),
          records_of-extend_last x l (r ∷ rs),
          IsOrdered-extend_last last (x ∷ l) (r ∷ rs) o,
          refl,
        )
      ]

  append-new_trail :
      (p rot : ℕ) (new : List ChangeRecord)
      → Appended none p rot [] new (append C (trail_of C p none rot [] []) new)
  unfolding append must_rotate active_index active_size append_at
  append-new_trail p rot [] = ([], refl, refl, tt, refl)
  append-new_trail p rot (r ∷ rs) = (
    (0, r ∷ rs) ∷ [],
    rw (append-nil (encode_records C (r ∷ rs))),
    append-nil (r ∷ rs),
    (tt, tt),
    refl,
  )

  -- Only a trail that was never purged can have no segment.
  abbrev pub IsStarted : Option ℕ → Layout → Type 0
  IsStarted last [] = last ≡ none
  IsStarted last (x ∷ l) = Unit

  append-any :
      (last : Option ℕ) (p rot : ℕ) (l : Layout) (new : List ChangeRecord)
      → IsOrdered last l
      → IsStarted last l
      → last_index l < 99999
      → Appended last p rot l new (append C (trail_of C p last rot l []) new)
  append-any last p rot [] new o s room = rw s (append-new_trail p rot new)
  append-any last p rot (x ∷ l) new o s room = append-Appended last p rot x l new o room

-- After `append`, with or without a rotation, the trail is read as the old records followed by the
-- new ones, from every cursor and under every limit, and the count of new records is returned. The
-- last segment of the trail has a number below 99999, the last one that the class lists.
pub read-append :
    (C : Codec) (last : Option ℕ) (p rot : ℕ) (l : Layout) (new : List ChangeRecord) (c : ℕ)
    (limit : Option ℕ)
    → IsOrdered last l
    → IsStarted C last l
    → last_index l < 99999
    → IsPositive limit
    → let (t, n) = append C (trail_of C p last rot l []) new in
      let found = limited limit (drop (c - p) (records_of l ++ new)) in
      (read C t c limit ≡ some (map C.canon found, max c p + length found)) × (n ≡ length new)
read-append C last p rot l new c limit o s room ok =
    let (l', e, same, o', n) = append-any C last p rot l new o s room in
    (rw (e, read-eq-limited C p last rot l' [] c limit tt ok, same) refl, n)
