-- ===== src/Trail/Heal/Restores.antt =====
-- Healing a torn trail gives back the trail before the torn append.
use any2helios_db.Prelude.{
  ℕ, zero, suc, ◌+◌, ◌-◌, ◌≤◌, ◌<◌, min, ◌≡◌, refl, sym, ap, ◌∙◌, Bool, true, false, not, Option,
  none, some, List, [], ◌∷◌, ◌++◌, append-nil, ◌==◌, if◌then◌else◌, arith, length, length-append,
  length-take, take, drop, Option-cases, inl, inr,
}
use any2helios_db.Record.{ChangeRecord}
use any2helios_db.Record.Codec.{Text, Codec, NoNewline}
use any2helios_db.Trail.{Segment, ends_line, is_empty, encode_records}
use any2helios_db.Trail.Lines.{ends_line-fragment, ends_line-line}
use any2helios_db.Trail.Layout.{Layout, place, trail_of}
use any2helios_db.Trail.Heal.{
  rfind_newline, read_at, offset_loop, last_newline_offset, heal_file, heal_segments,
  heal_torn_tail,
}

-- The length of the part that ends with the last newline, by one pass from the left.
pub complete_length : Text → ℕ
complete_length [] = 0
complete_length (c ∷ s) =
    let n = complete_length s in if n == 0 then (if c == 10 then 1 else 0) else suc n

abbrev after : Option ℕ → ℕ
after none = 0
after (some i) = suc i

complete_length-rfind_newline : (s : Text) → complete_length s ≡ after (rfind_newline s)
unfolding complete_length rfind_newline
complete_length-rfind_newline [] = refl
complete_length-rfind_newline (c ∷ s) = ground (arith, complete_length-rfind_newline s)

complete_length-append :
    (s t : Text)
    → complete_length (s ++ t)
      ≡ (if complete_length t == 0 then complete_length s else length s + complete_length t)
unfolding complete_length
complete_length-append [] t = ground arith
complete_length-append (c ∷ s) t = ground (arith, complete_length-append s t)

-- One round looks at the block before `pos`.
take-block : {A : Type 0} (s : List A) (p n : ℕ) → take (p + n) s ≡ take p s ++ take n (drop p s)
take-block s zero n = let e : 0 + n ≡ n = omega arith in rw e
take-block [] (suc p) zero = let e : suc p + 0 ≡ suc p = omega arith in rw e
take-block [] (suc p) (suc n) = let e : suc p + suc n ≡ suc (suc (p + n)) = omega arith in rw e
take-block (x ∷ s) (suc p) n =
    let e : suc p + n ≡ suc (p + n) = omega arith in rw (e, take-block s p n)

take-length : {A : Type 0} (s : List A) → take (length s) s ≡ s
take-length [] = refl
take-length (x ∷ s) = ap (λ r. x ∷ r) (take-length s)

abbrev either_of : ℕ → ℕ → Option ℕ → ℕ
either_of p rest (some nl) = p + nl + 1
either_of p rest none = rest

-- One round: either the block holds a newline, or the answer is that of the text before it.
offset_round :
    (f : Text) (p n : ℕ)
    → p ≤ length f
    → either_of p (complete_length (take p f)) (rfind_newline (read_at f p n))
      ≡ complete_length (take (p + n) f)
offset_round f p n h =
    rw (take-block f p n, complete_length-append (take p f) (take n (drop p f)))
      (ground (arith, complete_length-rfind_newline (take n (drop p f)), length-take p f))

offset_loop-eq :
    (fuel chunk : ℕ) (f : Text) (pos : ℕ)
    → pos < fuel
    → pos ≤ length f
    → 0 < chunk
    → offset_loop fuel chunk f pos ≡ complete_length (take pos f)
unfolding offset_loop
offset_loop-eq zero chunk f pos h le c = elim h [ ]
offset_loop-eq (suc fuel) chunk f zero h le c = unfold complete_length in refl
offset_loop-eq (suc fuel) chunk f (suc p) h le c =
    let n : ℕ = min chunk (suc p) in
    let q : ℕ = suc p - n in
    let ih = offset_loop-eq fuel chunk f q (omega arith) (omega arith) c in
    let e : q + n ≡ suc p = omega arith in
    let round = offset_round f q n (omega arith) ∙ ap (λ (m : ℕ). complete_length (take m f)) e in
    let more : (suc p == 0) ≡ false = ground arith in
    elim (Option-cases (rfind_newline (read_at f q n))) [
      | inl absent ↦ rw (more, absent) (ih ∙ (rw absent at round))
      | inr (nl, found) ↦ rw (more, found) (rw found at round)
    ]

-- The loop that reads blocks backwards finds the length of the complete lines, in one pass from
-- the left, and its fuel is enough for every size.
pub last_newline_offset-eq-complete_length :
    (f : Text) → last_newline_offset f (length f) ≡ complete_length f
unfolding last_newline_offset
last_newline_offset-eq-complete_length f =
    offset_loop-eq (suc (length f)) 4096 f (length f) (omega arith) (omega arith) (omega arith)
    ∙ ap complete_length (take-length f)

complete_length-clean : (s : Text) → NoNewline s → complete_length s ≡ 0
unfolding complete_length
complete_length-clean [] h = refl
complete_length-clean (c ∷ s) h = rw (complete_length-clean s h.1, h.0) refl

complete_length-newline : (s : Text) → complete_length (s ++ 10 ∷ []) ≡ suc (length s)
complete_length-newline s =
    complete_length-append s (10 ∷ []) ∙ (unfold complete_length in omega arith)

take-length-append : {A : Type 0} (s t : List A) → take (length s) (s ++ t) ≡ s
take-length-append [] t = refl
take-length-append (x ∷ s) t = ap (λ r. x ∷ r) (take-length-append s t)

if-same {ℓ} : {A : Type ℓ} (b : Bool) (a : A) → (if b then a else a) ≡ a
if-same true a = refl
if-same false a = refl

is_empty-append : {A : Type 0} (s t : List A) (x : A) → is_empty (s ++ x ∷ t) ≡ false
is_empty-append [] t x = refl
is_empty-append (y ∷ s) t x = refl

ends_line-append : (s t : Text) (c : ℕ) → ends_line (s ++ c ∷ t) ≡ ends_line (c ∷ t)
unfolding ends_line
ends_line-append [] t c = refl
ends_line-append (d ∷ []) t c = refl
ends_line-append (d ∷ e ∷ s) t c = ends_line-append (e ∷ s) t c

module _ (C : Codec) where
  complete_length-encode_records :
      (rs : List ChangeRecord)
      → complete_length (encode_records C rs) ≡ length (encode_records C rs)
  unfolding encode_records complete_length
  complete_length-encode_records [] = refl
  complete_length-encode_records (r ∷ rs) =
      let ih = complete_length-encode_records rs in
      let line : complete_length (10 ∷ encode_records C rs) ≡ suc (length (encode_records C rs)) =
        ground (arith, ih) in
      ground (
        arith,
        complete_length-append (C.to_json r) (10 ∷ encode_records C rs),
        line,
        length-append (C.to_json r) (10 ∷ encode_records C rs),
      )

  ends_line-encode_records :
      (r : ChangeRecord) (rs : List ChangeRecord) → ends_line (encode_records C (r ∷ rs)) ≡ true
  unfolding encode_records
  ends_line-encode_records r [] = ends_line-line (C.to_json r)
  ends_line-encode_records r (q ∷ rs) =
      ends_line-append (C.to_json r) (encode_records C (q ∷ rs)) 10
      ∙ ends_line-append (10 ∷ C.to_json q) (encode_records C rs) 10
      ∙ sym (ends_line-append (C.to_json q) (encode_records C rs) 10)
      ∙ ends_line-encode_records q rs

  heal_file-encode_records :
      (rs : List ChangeRecord) (frag : Text)
      → NoNewline frag
      → heal_file (encode_records C rs ++ frag) ≡ (encode_records C rs, not (is_empty frag))
  unfolding heal_file
  heal_file-encode_records [] [] h = unfold encode_records in refl
  heal_file-encode_records (r ∷ rs) [] h =
      rw (append-nil (encode_records C (r ∷ rs)), ends_line-encode_records r rs)
        (if-same (is_empty (encode_records C (r ∷ rs))) (encode_records C (r ∷ rs), false))
  heal_file-encode_records rs (c ∷ frag) h =
      let f : Text = encode_records C rs ++ c ∷ frag in
      let size : last_newline_offset f (length f) ≡ length (encode_records C rs) =
        last_newline_offset-eq-complete_length f
        ∙ complete_length-append (encode_records C rs) (c ∷ frag)
        ∙ (rw (complete_length-clean (c ∷ frag) h) (complete_length-encode_records rs)) in
      rw
        (
          is_empty-append (encode_records C rs) frag c,
          ends_line-append (encode_records C rs) frag c,
          ends_line-fragment (c ∷ frag) h,
          size,
          take-length-append (encode_records C rs) (c ∷ frag),
        )
        refl

  heal_segments-place :
      (x : ℕ × List ChangeRecord) (l : Layout) (frag : Text)
      → NoNewline frag
      → heal_segments (place C (x ∷ l) frag) ≡ (place C (x ∷ l) [], not (is_empty frag))
  unfolding heal_segments
  heal_segments-place (i, rs) [] frag h =
      rw (heal_file-encode_records rs frag h, append-nil (encode_records C rs)) refl
  heal_segments-place x (y ∷ []) frag h =
      ap
        (λ (r : List Segment × Bool).
          (record { index = x.0; content = encode_records C x.1 } ∷ r.0, r.1))
        (heal_segments-place y [] frag h)
  heal_segments-place x (y ∷ z ∷ l) frag h =
      ap
        (λ (r : List Segment × Bool).
          (record { index = x.0; content = encode_records C x.1 } ∷ r.0, r.1))
        (heal_segments-place y (z ∷ l) frag h)

-- After a crash in the middle of an append, the heal cuts the fragment and nothing else: what stays
-- is the trail before the torn append, and the heal says whether there was a fragment.
pub heal_torn_tail-restores :
    (C : Codec) (purged : ℕ) (last : Option ℕ) (rotate : ℕ) (x : ℕ × List ChangeRecord) (l : Layout)
    (frag : Text)
    → NoNewline frag
    → heal_torn_tail (trail_of C purged last rotate (x ∷ l) frag)
      ≡ (trail_of C purged last rotate (x ∷ l) [], not (is_empty frag))
unfolding heal_torn_tail
heal_torn_tail-restores C purged last rotate x l frag h = rw (heal_segments-place C x l frag h) refl
