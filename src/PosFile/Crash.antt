-- ===== src/PosFile/Crash.antt =====
-- What a crash of `write_pos_atomic` leaves of the position file.
use any2helios_db.Prelude.{
  ℕ, zero, suc, Bool, true, false, Option, none, some, [], ◌∷◌, ◌≡◌, refl, inl, inr, arith, ap, ◌∙◌,
  not, ◌||◌, ◌⊎◌, Bool-cases, if◌then◌else◌, take,
}
use any2helios_db.Record.Codec.{Text}
use any2helios_db.Trail.{strip, is_empty}
use any2helios_db.PosFile.{
  looks_like_pos, read_pos, File, Disk, sync, replace, sync_dir, unlink, perform, perform_all,
  Faults, after, replace_path, write_temp, partition, rpartition, write_effects, write_pos_atomic,
  left, crashed_write,
}

-- The path names no file, or one that is on the disk.
abbrev pub IsSynced : Option File → Type 0
IsSynced none = Unit
IsSynced (some f) = f.is_synced ≡ true

abbrev pub content_of : Option File → Option Text
content_of none = none
content_of (some f) = some f.content

left-IsSynced : (torn : Text → Text) (f : Option File) → IsSynced f → left torn f ≡ content_of f
left-IsSynced torn none h = refl
left-IsSynced torn (some f) h = rw h refl

not_empty : (s : Text) → looks_like_pos s ≡ true → is_empty s ≡ false
unfolding looks_like_pos partition rpartition
not_empty [] h = ground arith
not_empty (c ∷ s) h = refl

read_pos-looks_like_pos :
    (data' : Text)
    → looks_like_pos (strip data') ≡ true
    → read_pos (some data') ≡ some (some (strip data'))
unfolding read_pos
read_pos-looks_like_pos data' h = rw (not_empty (strip data') h, h) refl

module _ (data' : Text) (d : Disk) where
  -- The file that a name finds: what one of the names found before, or the new data.
  abbrev IsWhole : Option File → Type 0
  IsWhole f =
      (f ≡ d.entry) ⊎ ((f ≡ d.saved) ⊎ (f ≡ some (record { content = data'; is_synced = true })))

  abbrev AreWhole : Disk → Type 0
  AreWhole d' = IsWhole d'.entry × IsWhole d'.saved

  -- The disk as it was, but for the temporary file.
  abbrev with_temp : Option File → Disk
  with_temp f = record d { temp = f }

  as_before : AreWhole (with_temp none)
  as_before = (inl refl, inr (inl refl))

  AreWhole-unlink :
      (b : Bool) (k : ℕ) (f : Option File)
      → AreWhole (perform_all (take k (if b then [] else unlink ∷ [])) (with_temp f))
  unfolding perform_all perform
  AreWhole-unlink true zero f = as_before
  AreWhole-unlink true (suc k) f = as_before
  AreWhole-unlink false zero f = as_before
  AreWhole-unlink false (suc zero) f = as_before
  AreWhole-unlink false (suc (suc k)) f = as_before

  abbrev new_file : Option File
  new_file = some (record { content = data'; is_synced = true })

  AreWhole-replace :
      (b : Bool) (k : ℕ)
      → AreWhole
          (perform_all (take k (replace ∷ (if b then [] else sync_dir ∷ []))) (with_temp new_file))
  unfolding perform_all perform
  AreWhole-replace b zero = as_before
  AreWhole-replace true (suc zero) = (inr (inr refl), inr (inl refl))
  AreWhole-replace true (suc (suc k)) = (inr (inr refl), inr (inl refl))
  AreWhole-replace false (suc zero) = (inr (inr refl), inr (inl refl))
  AreWhole-replace false (suc (suc zero)) = (inr (inr refl), inr (inr refl))
  AreWhole-replace false (suc (suc (suc k))) = (inr (inr refl), inr (inr refl))

  AreWhole-replace_path :
      (F : Faults) (k : ℕ) → AreWhole (perform_all (take k (replace_path F).0) (with_temp new_file))
  AreWhole-replace_path F k = elim (Bool-cases F.no_replace) [
    | inl stuck ↦ rw stuck (AreWhole-unlink F.no_unlink k new_file)
    | inr moves ↦ rw moves (AreWhole-replace F.no_sync_dir k)
  ]

  AreWhole-sync :
      (F : Faults) (k : ℕ)
      → AreWhole (
          perform_all
            (take k (after sync (replace_path F)).0)
            (with_temp (some (record { content = data'; is_synced = false }))))
  unfolding perform_all perform
  AreWhole-sync F zero = as_before
  AreWhole-sync F (suc k) = AreWhole-replace_path F k

  AreWhole-write_temp :
      (F : Faults) (part : Option Text) (k : ℕ) (f : Option File)
      → AreWhole (perform_all (take k (write_temp F data' part).0) (with_temp f))
  unfolding perform_all perform
  AreWhole-write_temp F part zero f = as_before
  AreWhole-write_temp F (some part) (suc k) f =
      AreWhole-unlink F.no_unlink k (some (record { content = part; is_synced = false }))
  AreWhole-write_temp F none (suc k) f = elim (Bool-cases F.no_sync) [
    | inl stuck ↦
        rw stuck
          (AreWhole-unlink F.no_unlink k (some (record { content = data'; is_synced = false })))
    | inr syncs ↦ rw syncs (AreWhole-sync F k)
  ]

  AreWhole-write_effects :
      (F : Faults) (k : ℕ) → AreWhole (perform_all (take k (write_effects F data').0) d)
  unfolding perform_all perform write_effects
  AreWhole-write_effects F zero = as_before
  AreWhole-write_effects F (suc k) = elim (Bool-cases F.no_temp) [
    | inl stuck ↦ rw stuck as_before
    | inr made ↦
        rw made (AreWhole-write_temp F F.part k (some (record { content = []; is_synced = false })))
  ]

  -- What a crash leaves of a name that stood for a whole file.
  left-IsWhole :
      (torn : Text → Text) (f : Option File)
      → IsSynced d.entry
      → IsSynced d.saved
      → IsWhole f
      → (left torn f ≡ content_of d.entry)
        ⊎ ((left torn f ≡ content_of d.saved) ⊎ (left torn f ≡ some data'))
  left-IsWhole torn f e_ok s_ok (inl is) = inl (rw is (left-IsSynced torn d.entry e_ok))
  left-IsWhole torn f e_ok s_ok (inr (inl is)) = inr (inl (rw is (left-IsSynced torn d.saved s_ok)))
  left-IsWhole torn f e_ok s_ok (inr (inr is)) = inr (inr (rw is refl))

left-crashed_write :
    (F : Faults) (data' : Text) (d : Disk) (k : ℕ) (keeps : Bool) (torn : Text → Text)
    → IsSynced d.entry
    → IsSynced d.saved
    → let found = crashed_write F data' d k keeps torn in
      (found ≡ content_of d.entry) ⊎ ((found ≡ content_of d.saved) ⊎ (found ≡ some data'))
unfolding crashed_write
left-crashed_write F data' d k true torn e_ok s_ok =
    left-IsWhole data' d torn _ e_ok s_ok (AreWhole-write_effects data' d F k).0
left-crashed_write F data' d k false torn e_ok s_ok =
    left-IsWhole data' d torn _ e_ok s_ok (AreWhole-write_effects data' d F k).1

-- After a crash of `write_pos_atomic` at any of its effects, with any failures, and whatever the disk
-- kept of what was not synced, `read_pos` reads what it read by one of the names before, or, where
-- the data is a cursor, the data; the files that the names stood for were synced.
pub read_pos-crashed_write :
    (F : Faults) (data' : Text) (d : Disk) (k : ℕ) (keeps : Bool) (torn : Text → Text)
    → IsSynced d.entry
    → IsSynced d.saved
    → looks_like_pos (strip data') ≡ true
    → let found = read_pos (crashed_write F data' d k keeps torn) in
      (found ≡ read_pos (content_of d.entry))
      ⊎ ((found ≡ read_pos (content_of d.saved)) ⊎ (found ≡ some (some (strip data'))))
read_pos-crashed_write F data' d k keeps torn e_ok s_ok cursor =
    elim (left-crashed_write F data' d k keeps torn e_ok s_ok) [
      | inl is ↦ inl (ap read_pos is)
      | inr (inl is) ↦ inr (inl (ap read_pos is))
      | inr (inr is) ↦ inr (inr (ap read_pos is ∙ read_pos-looks_like_pos data' cursor))
    ]

abbrev pub is_part : Option Text → Bool
is_part none = false
is_part (some part) = true

-- One of the calls in the `try` block, or the one before it, fails.
abbrev pub fails : Faults → Bool
fails F = F.no_temp || is_part F.part || F.no_sync || F.no_replace

part-cases : (o : Option Text) → (o ≡ none) ⊎ ((part : Text) × (o ≡ some part))
part-cases none = inl refl
part-cases (some part) = inr (part, refl)

-- `write_pos_atomic` returns unless one of its calls but the last fails, and then both names stand
-- for the new file, whole and synced, but for a directory that was not; where it raises, both stand
-- for what they did before, and the temporary file is gone if there was one and it could be removed.
pub write_pos_atomic_outcome :
    (F : Faults) (data' : Text) (d : Disk)
    → let d' = (write_pos_atomic F data' d).0 in
      let written : Option File = some (record { content = data'; is_synced = true }) in
      ((write_pos_atomic F data' d).1 ≡ not (fails F))
      × (d'.entry ≡ (if fails F then d.entry else written))
      × (d'.saved ≡ (if fails F || F.no_sync_dir then d.saved else written))
      × ((F.no_temp ≡ true) ⊎ ((F.no_unlink ≡ true) ⊎ (d'.temp ≡ none)))
unfolding write_pos_atomic write_effects perform_all perform
write_pos_atomic_outcome F data' d = elim (Bool-cases F.no_temp) [
  | inl stuck ↦ rw stuck (refl, refl, refl, inl refl)
  | inr made ↦ elim (part-cases F.part) [
    | inr (part, torn) ↦ rw (made, torn) (ground arith)
    | inl whole ↦ rw (made, whole) (ground arith)
  ]
]
