-- ===== src/Replicating/Once.antt =====
-- What a whole run leaves in the dead-letter file, whatever its end.
use any2helios_db.Prelude.{
  ℕ, ◌+◌, ◌≤◌, ◌≡◌, refl, ap, ◌∙◌, String, false, Option, none, some, List, [], ◌++◌, append-nil,
  ◌==◌, length, length-append, arith, Bool-cases, Option-cases, inl, inr, ◌⊎◌,
}
use any2helios_db.Record.Codec.{Codec}
use any2helios_db.DeadLetter.{Entry, Journal, is_seen, seen_source_positions, count}
use any2helios_db.DeadLetter.File.{
  letters_text, keys_of_letters, seen_source_positions-letters_text, count-letters_text,
}
use any2helios_db.DeadLetter.Once.{AreDistinct}
use any2helios_db.Trail.{Trail}
use any2helios_db.Trail.Purge.{reconcile_purged}
use any2helios_db.Registry
use any2helios_db.Replicat.{go_on, Driver, Config, Outcome}
use any2helios_db.Replicat.Follows.Ends.{Ends}
use any2helios_db.Replicating.{
  World, Options, run_chunks, begin_run, Progress, Summary, Capabilities, refuses_edition,
  Reconciler, on_target, reconciled, summary_of, run_replicat,
}
use any2helios_db.Replicating.Letters.{HoldsLetters, AddsLetters, ParksWithin}
use any2helios_db.Replicating.Parked.{run_chunks-ParksWithin}

-- A summary counts the new letters, all letters, and keeps to the circuit breaker.
abbrev pub Accounts : Options → ℕ → ℕ → Option (Option Summary) → Type 0
Accounts opts old new none = Unit
Accounts opts old new (some none) = Unit
Accounts opts old new (some (some s)) =
    (s.dead_lettered ≡ new)
    × (s.dead_letter_total ≡ old + new)
    × ((opts.max_poison ≡ 0) ⊎ (s.dead_lettered ≤ opts.max_poison))

-- The file holds the old letters and then new ones, all positions different, and the summary says so.
abbrev pub ParksOnce :
    {T : Type 0} → Journal → Options → List Entry → World T × Option (Option Summary) → Type 0
ParksOnce J opts es (w, result) =
    (new : List Entry) × (w.letters ≡ letters_text J (es ++ new))
    × AreDistinct (keys_of_letters J (es ++ new))
    × Accounts opts (length es) (length new) result

module _ {T : Type 0} (J : Journal) (D : Driver T) (cfg : Config) (name_of : String → String)
    (opts : Options) (name : String) (C : Codec) (reconcile : Reconciler T) (es : List Entry)
    (distinct : AreDistinct (keys_of_letters J es)) where
  begin_run-HoldsLetters :
      (w : World T)
      → w.letters ≡ letters_text J es
      → 1 ≤ opts.poison_retries
      → HoldsLetters J es (begin_run J D cfg name_of opts name w)
  unfolding begin_run
  begin_run-HoldsLetters w file on =
      let is_on : (opts.poison_retries == 0) ≡ false = ground arith in
      rw is_on (record {
        file = file;
        distinct = distinct;
        known = λ k.
            ap (is_seen k)
              (ap (seen_source_positions J) file ∙ seen_source_positions-letters_text J es);
      })

  begin_run-fresh : (w : World T) → (begin_run J D cfg name_of opts name w).poisoned ≡ 0
  unfolding begin_run
  begin_run-fresh w = refl

  untouched : (w : World T) → w.letters ≡ letters_text J es → ParksOnce J opts es (w, none)
  untouched w file = ([], rw (append-nil es) file, rw (append-nil es) distinct, tt)

  module _ (w0 : World T) (held : HoldsLetters J es w0) (fresh : w0.poisoned ≡ 0) where
    summarised :
        (p : Progress J D cfg name_of opts name) (gone : Outcome) (w w2 : World T)
        → ParksWithin J D cfg name_of opts name w0 w
        → w2.letters ≡ w.letters
        → w2.poisoned ≡ w.poisoned
        → ParksOnce J opts es
            (w2, some (some (summary_of J D cfg name_of opts name C reconcile p gone w2)))
    summarised p gone w w2 (adds, within) same counted =
        let (new, after, total) = adds es held in
        let poisoned : w2.poisoned ≡ length new = omega arith in
        let all : count w2.letters ≡ length es + length new =
          ap count (same ∙ after.file) ∙ count-letters_text J (es ++ new) ∙ length-append es new in
        (
          new,
          same ∙ after.file,
          after.distinct,
          (poisoned, all, bounded (within (inr (omega arith)))),
        )
      where
        bounded :
            (opts.max_poison ≡ 0) ⊎ (w.poisoned ≤ opts.max_poison)
            → (opts.max_poison ≡ 0) ⊎ (w2.poisoned ≤ opts.max_poison)
        bounded (inl off) = inl off
        bounded (inr le) = inr (omega arith)

    -- An end without a summary.
    raised :
        (w w2 : World T)
        → AddsLetters J w0 w
        → w2.letters ≡ w.letters
        → ParksOnce J opts es (w2, none)
    raised w w2 adds same =
        let (new, after, total) = adds es held in (new, same ∙ after.file, after.distinct, tt)

    reconciled-ParksOnce :
        (p : Progress J D cfg name_of opts name) (w : World T)
        → ParksWithin J D cfg name_of opts name w0 w
        → ParksOnce J opts es (
            go_on (reconciled J D cfg name_of opts name C reconcile w) (λ gone w2.
              (w2, some (some (summary_of J D cfg name_of opts name C reconcile p gone w2)))))
    reconciled-ParksOnce p w h = go reconcile
      where
        after :
            (m : T × Option Outcome)
            → ParksOnce J opts es (
                go_on
                  (record w { target = m.0 }, m.1)
                  (λ gone w2.
                    (w2, some (some (summary_of J D cfg name_of opts name C reconcile p gone w2)))))
        after (t, none) = raised w (record w { target = t }) h.0 refl
        after (t, some gone) = summarised p gone w (record w { target = t }) h refl refl

        go :
            (act : Reconciler T)
            → ParksOnce J opts es (
                go_on
                  (elim act [ none ↦ (w, some (0, [])) | some a ↦ on_target a w ])
                  (λ gone w2.
                    (w2, some (some (summary_of J D cfg name_of opts name C reconcile p gone w2)))))
        go none = summarised p (0, []) w w h refl refl
        go (some act) = after (act w.target)

    finished :
        (m : World T × Option (Option (Progress J D cfg name_of opts name)))
        → Ends (ParksWithin J D cfg name_of opts name) (AddsLetters J) w0 m
        → ParksOnce J opts es (
            go_on m (λ progress w1. elim progress [
              | none ↦ (w1, some none)
              | some p ↦ go_on (reconciled J D cfg name_of opts name C reconcile w1) (λ gone w2.
                  (w2, some (some (summary_of J D cfg name_of opts name C reconcile p gone w2))))
            ]))
    finished (w, none) h = raised w w h refl
    finished (w, some none) h = raised w w h.0 refl
    finished (w, some (some p)) h = reconciled-ParksOnce p w h

-- With the poison policy on, no source position is dead-lettered twice, over any number of runs. If
-- the dead-letter file holds whole entries with different positions, it does so after a run: the old
-- entries stay, and new ones stand behind them. That holds of every end of the run, an exception
-- too. A run that returns counts the new entries and all entries in its summary, and the new ones
-- are no more than the circuit breaker allows, where it is not off.
pub run_replicat-parks_once :
    {T : Type 0} (J : Journal) (D : Driver T) (cfg : Config) (name_of : String → String)
    (opts : Options) (name : String) (C : Codec) (reconcile : Reconciler T) (es : List Entry)
    (fuel : ℕ) (caps : Capabilities) (t : Trail) (w : World T)
    → AreDistinct (keys_of_letters J es)
    → w.letters ≡ letters_text J es
    → 1 ≤ opts.poison_retries
    → ParksOnce J opts es (run_replicat J D cfg name_of opts name C reconcile fuel caps t w)
unfolding run_replicat
run_replicat-parks_once J D cfg name_of opts name C reconcile es fuel caps t w distinct file on =
    elim (Option-cases (Registry.get name w.registry)) [
      | inl unknown ↦
          rw (unknown, run_replicat)
            (untouched J D cfg name_of opts name C reconcile es distinct w file)
      | inr (ext, at) ↦ elim (Bool-cases (refuses_edition caps)) [
        | inl old ↦
            rw (at, old, run_replicat)
              (untouched J D cfg name_of opts name C reconcile es distinct w file)
        | inr new ↦
            let w0 = begin_run J D cfg name_of opts name w in
            let held =
              begin_run-HoldsLetters J D cfg name_of opts name C reconcile es distinct w file on in
            rw (at, new, run_replicat)
              (finished J D cfg name_of opts name C reconcile es distinct w0 held
                (begin_run-fresh J D cfg name_of opts name C reconcile es distinct w)
                (run_chunks J D cfg name_of opts name C fuel (reconcile_purged t) ext.apply_cursor 0
                  (0, []) fuel w0)
                (run_chunks-ParksWithin J D cfg name_of opts name C (reconcile_purged t) fuel fuel
                  ext.apply_cursor 0 (0, []) w0))
      ]
    ]
