-- ===== src/DeadLetter/File.antt =====
-- The dead-letter file as the entries that `append` wrote to it.
use any2helios_db.Prelude.{
  ℕ, suc, ◌≡◌, refl, ap, ◌∙◌, some, List, [], ◌∷◌, ◌++◌, append_assoc, length, false,
}
use any2helios_db.Record.Codec.{Text}
use any2helios_db.Record.{ChangeRecord}
use any2helios_db.Trail.{split_lines, strip, is_empty}
use any2helios_db.Trail.Lines.{split_lines-line, strip-framed}
use any2helios_db.DeadLetter.{
  Entry, Journal, keep_pos, seen_loop, seen_source_positions, pos_key, append_letter, count_letters,
  count,
}

module _ (J : Journal) where
  open J use {dumps, one_line, framed, finds}

  -- A file of whole entries.
  unfoldable pub letters_text : List Entry → Text
  letters_text [] = []
  letters_text (e ∷ es) = dumps e ++ 10 ∷ letters_text es

  -- The positions of the entries that have one.
  abbrev pub keys_of_letters : List Entry → List Text
  keys_of_letters [] = []
  keys_of_letters (e ∷ es) = keep_pos J (some (pos_key J e.letter)) (keys_of_letters es)

  letters_text-append :
      (es fs : List Entry) → letters_text es ++ letters_text fs ≡ letters_text (es ++ fs)
  unfolding letters_text
  letters_text-append [] fs = refl
  letters_text-append (e ∷ es) fs =
      append_assoc (dumps e) (10 ∷ letters_text es) (letters_text fs)
      ∙ ap (λ (t : Text). dumps e ++ 10 ∷ t) (letters_text-append es fs)

  pub append_letter-letters_text :
      (es : List Entry) (r : ChangeRecord) (cursor : ℕ)
      → append_letter J r cursor (letters_text es)
        ≡ letters_text (es ++ record { letter = r; cursor = cursor } ∷ [])
  unfolding append_letter letters_text
  append_letter-letters_text es r cursor =
      letters_text-append es (record { letter = r; cursor = cursor } ∷ [])

  stripped : (e : Entry) → strip (dumps e ++ 10 ∷ []) ≡ dumps e
  stripped e = let (mid, at) = framed e in rw at (strip-framed mid)

  not_blank : (e : Entry) → is_empty (dumps e) ≡ false
  not_blank e = let (mid, at) = framed e in rw at refl

  pub seen_source_positions-letters_text :
      (es : List Entry) → seen_source_positions J (letters_text es) ≡ keys_of_letters es
  unfolding seen_source_positions seen_loop letters_text split_lines pos_key
  seen_source_positions-letters_text [] = refl
  seen_source_positions-letters_text (e ∷ es) =
      rw
        (
          split_lines-line (dumps e) (letters_text es) (one_line e),
          stripped e,
          not_blank e,
          finds e,
        )
        (ap (keep_pos J (some (pos_key J e.letter))) (seen_source_positions-letters_text es))

  pub count-letters_text : (es : List Entry) → count (letters_text es) ≡ length es
  unfolding count count_letters letters_text split_lines
  count-letters_text [] = refl
  count-letters_text (e ∷ es) =
      rw (split_lines-line (dumps e) (letters_text es) (one_line e), stripped e, not_blank e)
        (ap suc (count-letters_text es))
