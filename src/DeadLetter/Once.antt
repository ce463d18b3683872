-- ===== src/DeadLetter/Once.antt =====
-- Entries whose source positions are all different.
use any2helios_db.Prelude.{
  ◌≡◌, refl, ap, ◌∙◌, false, ◌||◌, some, List, [], ◌∷◌, ◌++◌, arith, Option-cases, inl, inr,
}
use any2helios_db.Record.Codec.{Text}
use any2helios_db.DeadLetter.{Entry, Journal, is_seen, same_text, keep_pos, pos_key}
use any2helios_db.DeadLetter.File.{keys_of_letters}

-- The positions are all different.
abbrev pub AreDistinct : List Text → Type 0
AreDistinct [] = Unit
AreDistinct (k ∷ ks) = (is_seen k ks ≡ false) × AreDistinct ks

same_text_sym : (s t : Text) → same_text s t ≡ same_text t s
same_text_sym [] [] = refl
same_text_sym [] (d ∷ t) = refl
same_text_sym (c ∷ s) [] = refl
same_text_sym (c ∷ s) (d ∷ t) = ground (arith, same_text_sym s t)

pub is_seen-snoc :
    (k key : Text) (ks : List Text) → is_seen k (ks ++ key ∷ []) ≡ (same_text k key || is_seen k ks)
is_seen-snoc k key [] = refl
is_seen-snoc k key (q ∷ ks) = ground (arith, is_seen-snoc k key ks)

pub AreDistinct-snoc :
    (key : Text) (ks : List Text)
    → AreDistinct ks
    → is_seen key ks ≡ false
    → AreDistinct (ks ++ key ∷ [])
AreDistinct-snoc key [] h new = (refl, tt)
AreDistinct-snoc key (q ∷ ks) h new =
    let apart : same_text key q ≡ false = ground (arith, new) in
    let back : same_text q key ≡ false = same_text_sym q key ∙ apart in
    let later : is_seen key ks ≡ false = ground (arith, new, apart) in
    (is_seen-snoc q key ks ∙ rw (back) h.0, AreDistinct-snoc key ks h.1 later)

module _ (J : Journal) where
  pub keys_of_letters-snoc :
      (es : List Entry) (e : Entry)
      → keys_of_letters J (es ++ e ∷ [])
        ≡ keys_of_letters J es ++ keep_pos J (some (pos_key J e.letter)) []
  keys_of_letters-snoc [] e = refl
  keys_of_letters-snoc (q ∷ es) e = elim (Option-cases (pos_key J q.letter)) [
    | inl at ↦ rw at (keys_of_letters-snoc es e)
    | inr (k, at) ↦ rw at (ap (λ (ks : List Text). k ∷ ks) (keys_of_letters-snoc es e))
  ]
