-- ===== src/Replicating/Letters.antt =====
-- The dead letters of a run: no source position is parked twice, and the counter counts them.
use any2helios_db.Prelude.{
  ℕ, suc, ◌+◌, ◌≤◌, ◌≡◌, refl, sym, ap, ◌∙◌, String, false, Option, none, some, List, [], ◌∷◌, ◌++◌,
  append-nil, append_assoc, length, length-append, arith, ◌⊎◌,
}
use any2helios_db.Record.Codec.{Text}
use any2helios_db.DeadLetter.{Entry, Journal, is_seen, keep_pos, pos_key}
use any2helios_db.DeadLetter.File.{letters_text, keys_of_letters}
use any2helios_db.DeadLetter.Once.{
  AreDistinct, AreDistinct-snoc, is_seen-snoc, keys_of_letters-snoc,
}
use any2helios_db.Replicat.{Driver, Config}
use any2helios_db.Replicat.Follows.{Rule}
use any2helios_db.Replicat.Follows.Session.{Session}
use any2helios_db.Replicat.Follows.Ends.{Falls}
use any2helios_db.Replicating.{World, Options, target_driver, set_cursor}

module _ {T : Type 0} (J : Journal) where
  -- The file holds these entries, their positions are different, and the run knows all of them.
  pub record HoldsLetters (es : List Entry) (w : World T) : Type 0 where
    pub file : w.letters ≡ letters_text J es
    pub distinct : AreDistinct (keys_of_letters J es)
    pub known : (k : Text) → is_seen k w.dead_seen ≡ is_seen k (keys_of_letters J es)

  -- From one state to the next: entries were added at the end, and each was counted.
  abbrev pub AddsLetters : World T → World T → Type 0
  AddsLetters w w' =
      (es : List Entry)
      → HoldsLetters es w
      → (new : List Entry) × HoldsLetters (es ++ new) w' × (w'.poisoned ≡ w.poisoned + length new)

  pub AddsLetters-Rule : Rule AddsLetters
  AddsLetters-Rule = record {
    stay = λ w es h. ([], rw (append-nil es) h, omega arith);
    chain = λ a b c p q es h.
        let (new, held, counted) = p es h in
        let (more, held', counted') = q (es ++ new) held in
        (
          new ++ more,
          rw (sym (append_assoc es new more)) held',
          omega (arith, length-append new more),
        );
  }

  -- Two states that agree on the letters, on what is known and on the counter.
  pub same_letters-AddsLetters :
      (w w' : World T)
      → w'.letters ≡ w.letters
      → w'.dead_seen ≡ w.dead_seen
      → w'.poisoned ≡ w.poisoned
      → AddsLetters w w'
  same_letters-AddsLetters w w' e f g es h = (
    [],
    rw (append-nil es) (record {
      file = e ∙ h.file;
      distinct = h.distinct;
      known = λ k. ap (is_seen k) f ∙ h.known k;
    }),
    omega (arith, g),
  )

  -- A record without a position, or with one that is not known, is one entry more.
  pub holds_parked :
      (es : List Entry) (w : World T) (e : Entry) (o : Option Text) (file : Text)
      → HoldsLetters es w
      → pos_key J e.letter ≡ o
      → file ≡ letters_text J (es ++ e ∷ [])
      → ((key : Text) → o ≡ some key → is_seen key w.dead_seen ≡ false)
      → HoldsLetters (es ++ e ∷ []) (record w {
        letters = file;
        dead_seen = keep_pos J (some o) w.dead_seen;
        poisoned = suc w.poisoned;
      })
  holds_parked es w e none file h at written fresh =
      let keys : keys_of_letters J (es ++ e ∷ []) ≡ keys_of_letters J es =
        keys_of_letters-snoc J es e
        ∙ ap (λ (o : Option Text). keys_of_letters J es ++ keep_pos J (some o) []) at
        ∙ append-nil (keys_of_letters J es) in
      record { file = written; distinct = rw keys h.distinct; known = λ k. rw keys (h.known k) }
  holds_parked es w e (some key) file h at written fresh =
      let keys : keys_of_letters J (es ++ e ∷ []) ≡ keys_of_letters J es ++ key ∷ [] =
        keys_of_letters-snoc J es e
        ∙ ap (λ (o : Option Text). keys_of_letters J es ++ keep_pos J (some o) []) at in
      let new : is_seen key (keys_of_letters J es) ≡ false = sym (h.known key) ∙ fresh key refl in
      record {
        file = written;
        distinct = rw keys (AreDistinct-snoc key (keys_of_letters J es) h.distinct new);
        known = λ k. rw (keys, is_seen-snoc k key (keys_of_letters J es), h.known k) refl;
      }

module _ {T : Type 0} (J : Journal) (D : Driver T) (cfg : Config) (name_of : String → String)
    (opts : Options) (name : String) where
  -- The counter is within `poison_max_per_run`, where that is not zero.
  abbrev pub IsWithin : World T → Type 0
  IsWithin w = (opts.max_poison ≡ 0) ⊎ (w.poisoned ≤ opts.max_poison)

  -- What returns leaves the counter within its limit.
  abbrev pub ParksWithin : World T → World T → Type 0
  ParksWithin w w' = AddsLetters J w w' × (IsWithin w → IsWithin w')

  pub ParksWithin-Rule : Rule ParksWithin
  ParksWithin-Rule = record {
    stay = λ w. ((AddsLetters-Rule J).stay w, λ h. h);
    chain = λ a b c p q. ((AddsLetters-Rule J).chain a b c p.0 q.0, λ h. q.1 (p.1 h));
  }

  pub ParksWithin-Falls : Falls ParksWithin (AddsLetters J)
  ParksWithin-Falls = record {
    weaken = λ a b p. p.0;
    fall = λ a b c p q. (AddsLetters-Rule J).chain a b c p.0 q;
  }

  target_ParksWithin : (w : World T) (t : T) → ParksWithin w (record w { target = t })
  target_ParksWithin w t =
      (same_letters-AddsLetters J w (record w { target = t }) refl refl refl, λ h. h)

  pub set_cursor-ParksWithin :
      (cursor : ℕ) (w : World T) → ParksWithin w (set_cursor J D cfg name_of opts name cursor w)
  set_cursor-ParksWithin cursor w = (same_letters-AddsLetters J w _ refl refl refl, λ h. h)

  pub target-Session : Session (target_driver D) ParksWithin
  target-Session = record {
    writes = record {
      upserts = λ t ks cs rows w. record { leads = target_ParksWithin w _ };
      deletes = λ t ks rows w. record { leads = target_ParksWithin w _ };
      updates = λ t ks cs rows w. record { leads = target_ParksWithin w _ };
    };
    begins = λ w. record { leads = target_ParksWithin w _ };
    commits = λ w. record { leads = target_ParksWithin w _ };
    rolls_back = λ w. record { leads = target_ParksWithin w _ };
    pings = λ w. record { leads = target_ParksWithin w _ };
  }
