-- ===== src/Extract/Exact.antt =====
-- When a cycle that follows a crash leaves the trail as one that did not crash would have.
use any2helios_db.Prelude.{
  ℕ, ◌≡◌, true, false, Option, none, some, List, [], ◌∷◌, ◌++◌, if◌then◌else◌,
}
use any2helios_db.Record.{ChangeRecord, source_pos_key, key_lt}
use any2helios_db.Extract.{is_new}

-- No record is above the key, and every one has a key.
abbrev pub AreOld : ℕ × ℕ → List ChangeRecord → Type 0
AreOld last [] = Unit
AreOld last (r ∷ rs) = (is_new last (source_pos_key r.source_pos) ≡ false) × AreOld last rs

-- Every record is above the key, or has none.
abbrev pub AreNew : ℕ × ℕ → List ChangeRecord → Type 0
AreNew last [] = Unit
AreNew last (r ∷ rs) = (is_new last (source_pos_key r.source_pos) ≡ true) × AreNew last rs

AreNew-append : (last : ℕ × ℕ) (xs ys : List ChangeRecord) → AreNew last (xs ++ ys) → AreNew last ys
AreNew-append last [] ys h = h
AreNew-append last (r ∷ rs) ys h = AreNew-append last rs ys h.1

-- What the dedup needs of the tail of the trail, the captured records that are in it, and the rest.
abbrev pub IsParted : Option (ℕ × ℕ) → ℕ × ℕ → List ChangeRecord → List ChangeRecord → Type 0
IsParted none since done rest = done ≡ []
IsParted (some last) since done rest =
    if key_lt last since then done ≡ [] else AreOld last done × AreNew last rest
