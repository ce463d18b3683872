-- ===== src/Trail/Layout.antt =====
-- Trails as the records that they hold: which files `append` makes of a list of records per segment.
use any2helios_db.Prelude.{ℕ, List, [], ◌∷◌, ◌++◌, Option}
use any2helios_db.Record.{ChangeRecord}
use any2helios_db.Record.Codec.{Text, Codec}
use any2helios_db.Trail.{Segment, Trail, encode_records}

-- The number and the records of each segment.
abbrev pub Layout : Type 0
Layout = List (ℕ × List ChangeRecord)

abbrev pub records_of : Layout → List ChangeRecord
records_of [] = []
records_of ((i, rs) ∷ l) = rs ++ records_of l

module _ (C : Codec) where
  -- The last segment may end in a fragment of a line, which a crash left there.
  abbrev pub place : Layout → Text → List Segment
  place [] frag = []
  place ((i, rs) ∷ []) frag = record { index = i; content = encode_records C rs ++ frag } ∷ []
  place ((i, rs) ∷ x ∷ l) frag =
      record { index = i; content = encode_records C rs } ∷ place (x ∷ l) frag

  abbrev pub trail_of : ℕ → Option ℕ → ℕ → Layout → Text → Trail
  trail_of purged last rotate l frag = record {
    segments = place l frag;
    purged_lines = purged;
    last_purged = last;
    rotate_bytes = rotate;
  }
