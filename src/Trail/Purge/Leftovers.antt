-- ===== src/Trail/Purge/Leftovers.antt =====
-- What a purge and its recovery do to a trail whose segments are in order.
use any2helios_db.Prelude.{
  ℕ, suc, ◌+◌, ◌-◌, ◌≤◌, ◌<◌, max, ◌≡◌, refl, ap, ◌∙◌, Option, none, some, List, [], ◌∷◌, ◌++◌, ltb,
  if◌then◌else◌, arith, length, drop,
}
use any2helios_db.Record.{ChangeRecord}
use any2helios_db.Record.Codec.{Text, Codec}
use any2helios_db.Trail.{Segment, active_index, encode_records, split_lines}
use any2helios_db.Trail.Layout.{Layout, records_of, place, trail_of}
use any2helios_db.Trail.Purge.{
  write_meta, remove, without_leftovers, reconcile_purged, remove_at, purge_steps,
}

-- The segment numbers grow, and all lie above the last purged one.
abbrev pub Above : Option ℕ → ℕ → Type 0
Above none i = Unit
Above (some m) i = m < i

abbrev pub IsOrdered : Option ℕ → Layout → Type 0
IsOrdered last [] = Unit
IsOrdered last ((i, rs) ∷ l) = Above last i × IsOrdered (some i) l

pub drop-append :
    {A : Type 0} (xs ys : List A) (k : ℕ) → drop (length xs + k) (xs ++ ys) ≡ drop k ys
drop-append [] ys k = let e : 0 + k ≡ k = omega arith in rw e
drop-append (x ∷ xs) ys k =
    let e : suc (length xs) + k ≡ suc (length xs + k) = omega arith in rw e (drop-append xs ys k)

pub without_leftovers-head :
    (i a : ℕ) (text : Text) (tail : List Segment)
    → i < a
    → without_leftovers i a (record { index = i; content = text } ∷ tail)
      ≡ without_leftovers i a tail
unfolding without_leftovers
without_leftovers-head i a text tail h = ground arith

pub purge_steps-cons :
    (cursor a p i : ℕ) (text : Text) (tail : List Segment)
    → i < a
    → purge_steps cursor a p (record { index = i; content = text } ∷ tail) ≡ (
        let end = p + length (split_lines text) in
        if ltb cursor end then [] else write_meta end i ∷ remove i ∷ purge_steps cursor a end tail)
unfolding purge_steps
purge_steps-cons cursor a p i text tail h = ground arith

pub remove_at-head :
    (i : ℕ) (text : Text) (tail : List Segment)
    → remove_at i (record { index = i; content = text } ∷ tail) ≡ tail
unfolding remove_at
remove_at-head i text tail = ground arith

module _ (C : Codec) (frag : Text) where
  pub active-above :
      (m i : ℕ) (rs : List ChangeRecord) (l : Layout)
      → m < i
      → IsOrdered (some i) l
      → m < active_index (place C ((i, rs) ∷ l) frag)
  unfolding active_index
  active-above m i rs [] h o = h
  active-above m i rs ((j, ss) ∷ []) h o = omega arith
  active-above m i rs ((j, ss) ∷ y ∷ l) h o = active-above m j ss (y ∷ l) (omega arith) o.1

  -- Above the last purged number nothing is a leftover.
  pub without_leftovers-ordered :
      (last active : ℕ) (l : Layout)
      → IsOrdered (some last) l
      → without_leftovers last active (place C l frag) ≡ place C l frag
  unfolding without_leftovers
  without_leftovers-ordered last active [] o = refl
  without_leftovers-ordered last active ((i, rs) ∷ []) o = ground arith
  without_leftovers-ordered last active ((i, rs) ∷ (j, ss) ∷ []) o =
      ground (arith, without_leftovers-ordered last active ((j, ss) ∷ []))
  without_leftovers-ordered last active ((i, rs) ∷ (j, ss) ∷ y ∷ l) o =
      ground (arith, without_leftovers-ordered last active ((j, ss) ∷ y ∷ l))

  pub active-cons :
      (i : ℕ) (rs : List ChangeRecord) (x : ℕ × List ChangeRecord) (l : Layout)
      → active_index (place C ((i, rs) ∷ x ∷ l) frag) ≡ active_index (place C (x ∷ l) frag)
  unfolding active_index
  active-cons i rs x [] = refl
  active-cons i rs x (y ∷ l) = refl

  pub reconcile_purged-ordered :
      (p : ℕ) (last : Option ℕ) (rot : ℕ) (l : Layout)
      → IsOrdered last l
      → reconcile_purged (trail_of C p last rot l frag) ≡ trail_of C p last rot l frag
  unfolding reconcile_purged
  reconcile_purged-ordered p none rot l o = refl
  reconcile_purged-ordered p (some last) rot l o =
      rw (without_leftovers-ordered last (active_index (place C l frag)) l o)

  -- A crash between the meta and the removal leaves the counted segment, which is then dropped.
  pub reconcile_purged-leftover :
      (p i rot : ℕ) (rs : List ChangeRecord) (x : ℕ × List ChangeRecord) (l : Layout)
      → IsOrdered (some i) (x ∷ l)
      → reconcile_purged (trail_of C p (some i) rot ((i, rs) ∷ x ∷ l) frag)
        ≡ trail_of C p (some i) rot (x ∷ l) frag
  unfolding reconcile_purged
  reconcile_purged-leftover p i rot rs (j, ss) l o =
      let a : ℕ = active_index (place C ((i, rs) ∷ (j, ss) ∷ l) frag) in
      let tail : List Segment = place C ((j, ss) ∷ l) frag in
      let above : i < a = rw (active-cons i rs (j, ss) l) (active-above i j ss l o.0 o.1) in
      ap (λ (s : List Segment). record (trail_of C p (some i) rot [] []) { segments = s })
        (without_leftovers-head i a (encode_records C rs) tail above
          ∙ without_leftovers-ordered i a ((j, ss) ∷ l) o)

  -- From `p'` and `l'` on the same records are read for every cursor that the purge was given.
  abbrev pub Keeps : ℕ → ℕ → Layout → ℕ → Layout → Type 0
  Keeps cursor p l p' l' =
      (c : ℕ)
      → cursor ≤ c
      → (drop (c - p') (records_of l') ≡ drop (c - p) (records_of l)) × (max c p' ≡ max c p)
