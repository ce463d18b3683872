-- ===== src/Trail/Walk.antt =====
-- Reading a well-formed trail is a walk over its records.
use any2helios_db.Prelude.{
  ℕ, suc, ◌+◌, ◌≤◌, max, ◌≡◌, refl, ◌∙◌, Bool, true, false, Option, some, List, [], ◌∷◌, ◌++◌, map,
  append-nil, inl, inr, leb, if◌then◌else◌, arith, length, length-map, Bool-cases,
}
use any2helios_db.Record.{ChangeRecord}
use any2helios_db.Record.Codec.{Text, Codec, NoNewline}
use any2helios_db.Trail.{
  Scan, next, done, corrupt, then_read, Read, is_full, is_empty, split_lines, scan, read_segments,
  encode_records, Segment,
}
use any2helios_db.Trail.Lines.{
  fragment_lines, line, split_lines-encode_records, strip-line, ends_line-line, ends_line-fragment,
}
use any2helios_db.Trail.Layout.{Layout, records_of, place}

abbrev pub resume : Scan → (List ChangeRecord → ℕ → Scan) → Scan
resume (next out g) k = k out g
resume (done out g) k = done out g
resume corrupt k = corrupt

-- What `read` returns after the last segment.
abbrev pub settle : ℕ → Scan → Read
settle cursor w = then_read w (λ out g. some (out, max cursor g))

then_read-resume :
    (cursor : ℕ) (w : Scan) (r : List ChangeRecord → ℕ → Read) (k : List ChangeRecord → ℕ → Scan)
    → ((o : List ChangeRecord) (g : ℕ) → r o g ≡ settle cursor (k o g))
    → then_read (resume w next) r ≡ settle cursor (resume w k)
then_read-resume cursor (next out g) r k h = h out g
then_read-resume cursor (done out g) r k h = refl
then_read-resume cursor corrupt r k h = refl

module _ (C : Codec) (cursor : ℕ) (limit : Option ℕ) where
  open C use {to_json, from_json, canon, decodes, framed}

  -- The scan without the text.
  unfoldable pub walk : List ChangeRecord → ℕ → List ChangeRecord → Scan
  walk [] g out = next out g
  walk (r ∷ rs) g out =
      let skip = walk rs (suc g) out in
      let more = walk rs (suc g) (out ++ canon r ∷ []) in
      if leb (suc g) cursor
      then skip
      else if is_full limit (out ++ canon r ∷ [])
      then done (out ++ canon r ∷ []) (suc g)
      else more

  to_json-not-empty : (r : ChangeRecord) → is_empty (to_json r) ≡ false
  to_json-not-empty r = let (mid, e) = framed r in rw e refl

  scan-walk :
      (last : Bool) (rs : List ChangeRecord) (rest : List Text) (g : ℕ) (out : List ChangeRecord)
      → scan C last cursor limit (map (line C) rs ++ rest) g out
        ≡ resume (walk rs g out) (λ o k. scan C last cursor limit rest k o)
  unfolding scan walk
  scan-walk last [] rest g out = refl
  scan-walk last (r ∷ rs) rest g out = elim (Bool-cases (leb (suc g) cursor)) [
    | inl skip ↦ rw skip (scan-walk last rs rest (suc g) out)
    | inr take ↦ elim (Bool-cases (is_full limit (out ++ canon r ∷ []))) [
      | inl full ↦
          rw
            (take, ends_line-line (to_json r), strip-line C r, to_json-not-empty r, decodes r, full)
            refl
      | inr room ↦
          rw
            (take, ends_line-line (to_json r), strip-line C r, to_json-not-empty r, decodes r, room)
            (scan-walk last rs rest (suc g) (out ++ canon r ∷ []))
    ]
  ]

  walk-append :
      (rs ss : List ChangeRecord) (g : ℕ) (out : List ChangeRecord)
      → walk (rs ++ ss) g out ≡ resume (walk rs g out) (λ o k. walk ss k o)
  unfolding walk
  walk-append [] ss g out = refl
  walk-append (r ∷ rs) ss g out = elim (Bool-cases (leb (suc g) cursor)) [
    | inl skip ↦ rw skip (walk-append rs ss (suc g) out)
    | inr take ↦ elim (Bool-cases (is_full limit (out ++ canon r ∷ []))) [
      | inl full ↦ rw (take, full) refl
      | inr room ↦ rw (take, room) (walk-append rs ss (suc g) (out ++ canon r ∷ []))
    ]
  ]

  -- Records at or below the cursor are passed over.
  pub walk-below :
      (rs : List ChangeRecord) (g : ℕ) (out : List ChangeRecord)
      → g + length rs ≤ cursor
      → walk rs g out ≡ next out (g + length rs)
  unfolding walk
  walk-below [] g out h = ground arith
  walk-below (r ∷ rs) g out h = ground (arith, walk-below rs (suc g) out)

  -- The last segment, with a fragment or without.
  scan-fragment :
      (frag : Text) (g : ℕ) (out : List ChangeRecord)
      → NoNewline frag
      → settle cursor (scan C true cursor limit (fragment_lines frag) g out)
        ≡ some (out, max cursor g)
  unfolding scan
  scan-fragment [] g out h = refl
  scan-fragment (c ∷ s) g out h = elim (Bool-cases (leb (suc g) cursor)) [
    | inl skip ↦ rw skip (ground arith)
    | inr take ↦ rw (take, ends_line-fragment (c ∷ s) h) refl
  ]

  settle-resume :
      (w : Scan) (frag : Text)
      → NoNewline frag
      → settle cursor (resume w (λ o k. scan C true cursor limit (fragment_lines frag) k o))
        ≡ settle cursor w
  settle-resume (next out g) frag h = scan-fragment frag g out h
  settle-resume (done out g) frag h = refl
  settle-resume corrupt frag h = refl

  lines-encode_records :
      (rs : List ChangeRecord) → split_lines (encode_records C rs) ≡ map (line C) rs ++ []
  lines-encode_records rs =
      rw (← append-nil (encode_records C rs)) (split_lines-encode_records C rs [] tt)

  pub length-lines :
      (rs : List ChangeRecord) → length (split_lines (encode_records C rs)) ≡ length rs
  length-lines rs =
      rw (lines-encode_records rs, append-nil (map (line C) rs)) (length-map rs (line C))

  scan-closed :
      (rs : List ChangeRecord) (g : ℕ) (out : List ChangeRecord)
      → scan C false cursor limit (split_lines (encode_records C rs)) g out
        ≡ resume (walk rs g out) next
  scan-closed rs g out =
      rw (lines-encode_records rs) (scan-walk false rs [] g out ∙ unfold scan in refl)

  closed-step :
      (i : ℕ) (rs : List ChangeRecord) (t : Segment) (rest : List Segment)
      (post : List ChangeRecord)
      → ((g : ℕ) (out : List ChangeRecord)
          → read_segments C cursor limit (t ∷ rest) g out ≡ settle cursor (walk post g out))
      → (g : ℕ) (out : List ChangeRecord)
      → read_segments C cursor limit
          (record { index = i; content = encode_records C rs } ∷ t ∷ rest)
          g
          out
        ≡ settle cursor (walk (rs ++ post) g out)
  unfolding read_segments
  closed-step i rs t rest post ih g out = elim (Bool-cases (leb (g + length rs) cursor)) [
    | inl skip ↦
        rw (length-lines rs, skip, walk-append rs post g out, walk-below rs g out (ground arith))
          (ih (g + length rs) out)
    | inr open_it ↦
        rw (length-lines rs, open_it, walk-append rs post g out, scan-closed rs g out)
          (then_read-resume cursor (walk rs g out) _ _ (λ o k. ih k o))
  ]

  pub read_segments-place :
      (l : Layout) (frag : Text) (g : ℕ) (out : List ChangeRecord)
      → NoNewline frag
      → read_segments C cursor limit (place C l frag) g out
        ≡ settle cursor (walk (records_of l) g out)
  unfolding read_segments
  read_segments-place [] frag g out h = unfold walk in refl
  read_segments-place ((i, rs) ∷ []) frag g out h =
      rw
        (
          append-nil rs,
          split_lines-encode_records C rs frag h,
          scan-walk true rs (fragment_lines frag) g out,
        )
        (settle-resume (walk rs g out) frag h)
  read_segments-place ((i, rs) ∷ (j, ss) ∷ []) frag g out h =
      closed-step i rs (record { index = j; content = encode_records C ss ++ frag }) [] (ss ++ [])
        (λ k o. read_segments-place ((j, ss) ∷ []) frag k o h) g out
  read_segments-place ((i, rs) ∷ (j, ss) ∷ y ∷ l) frag g out h =
      closed-step i rs (record { index = j; content = encode_records C ss }) (place C (y ∷ l) frag)
        (ss ++ records_of (y ∷ l)) (λ k o. read_segments-place ((j, ss) ∷ y ∷ l) frag k o h) g out
