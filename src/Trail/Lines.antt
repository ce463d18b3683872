-- ===== src/Trail/Lines.antt =====
-- The lines of a file that holds encoded records.
use mathlib.Core.List.{reverse, reverse-append, reverse-cons, reverse-reverse}
use any2helios_db.Prelude.{◌≡◌, refl, ap, true, false, List, [], ◌∷◌, ◌++◌, map, append_assoc}
use any2helios_db.Record.{ChangeRecord}
use any2helios_db.Record.Codec.{Text, Codec, NoNewline}
use any2helios_db.Trail.{split_lines, ends_line, is_space, strip_left, strip, encode_records}

-- What stands behind the last newline is one line more, if it is there.
abbrev pub fragment_lines : Text → List Text
fragment_lines [] = []
fragment_lines (c ∷ s) = (c ∷ s) ∷ []

pub split_lines-line :
    (l s : Text) → NoNewline l → split_lines (l ++ 10 ∷ s) ≡ (l ++ 10 ∷ []) ∷ split_lines s
unfolding split_lines
split_lines-line [] s h = refl
split_lines-line (c ∷ l) s h = rw (h.0, split_lines-line l s h.1) refl

pub split_lines-fragment : (s : Text) → NoNewline s → split_lines s ≡ fragment_lines s
unfolding split_lines
split_lines-fragment [] h = refl
split_lines-fragment (c ∷ []) h = rw h.0 refl
split_lines-fragment (c ∷ d ∷ s) h = rw (h.0, split_lines-fragment (d ∷ s) h.1) refl

pub ends_line-line : (l : Text) → ends_line (l ++ 10 ∷ []) ≡ true
unfolding ends_line
ends_line-line [] = refl
ends_line-line (c ∷ []) = refl
ends_line-line (c ∷ d ∷ l) = ends_line-line (d ∷ l)

pub ends_line-fragment : (s : Text) → NoNewline s → ends_line s ≡ false
unfolding ends_line
ends_line-fragment [] h = refl
ends_line-fragment (c ∷ []) h = h.0
ends_line-fragment (c ∷ d ∷ s) h = ends_line-fragment (d ∷ s) h.1

-- A text between braces survives `strip`, whatever white space the newline is.
pub strip-framed :
    (mid : Text) → strip ((b'{' ∷ (mid ++ b'}' ∷ [])) ++ 10 ∷ []) ≡ b'{' ∷ (mid ++ b'}' ∷ [])
unfolding strip strip_left is_space
strip-framed mid = rw (
  reverse-append (b'{' ∷ (mid ++ b'}' ∷ [])) (10 ∷ []),
  reverse-append (b'{' ∷ mid) (b'}' ∷ []),
  reverse-cons b'}' (reverse (b'{' ∷ mid)),
  reverse-reverse (b'{' ∷ mid),
)

module _ (C : Codec) where
  open C use {to_json, one_line, framed}

  abbrev pub line : ChangeRecord → Text
  line r = to_json r ++ 10 ∷ []

  pub strip-line : (r : ChangeRecord) → strip (line r) ≡ to_json r
  strip-line r = let (mid, e) = framed r in rw e (strip-framed mid)

  pub split_lines-encode_records :
      (rs : List ChangeRecord) (frag : Text)
      → NoNewline frag
      → split_lines (encode_records C rs ++ frag) ≡ map line rs ++ fragment_lines frag
  unfolding encode_records
  split_lines-encode_records [] frag h = split_lines-fragment frag h
  split_lines-encode_records (r ∷ rs) frag h =
      rw
        (
          append_assoc (to_json r) (10 ∷ encode_records C rs) frag,
          split_lines-line (to_json r) (encode_records C rs ++ frag) (one_line r),
        )
        (ap (λ ls. line r ∷ ls) (split_lines-encode_records rs frag h))

  pub encode_records-append :
      (rs ss : List ChangeRecord)
      → encode_records C (rs ++ ss) ≡ encode_records C rs ++ encode_records C ss
  unfolding encode_records
  encode_records-append [] ss = refl
  encode_records-append (r ∷ rs) ss =
      rw
        (
          append_assoc (to_json r) (10 ∷ encode_records C rs) (encode_records C ss),
          encode_records-append rs ss,
        )
        refl
