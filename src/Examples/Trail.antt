-- ===== src/Examples/Trail.antt =====
-- The theorems on the trail at one trail: a purged segment, two that stand and a torn line.
use any2helios_db.Prelude.{
  ◌≡◌, refl, none, some, [], ◌∷◌, ◌++◌, map, arith, length, drop, max, ◌+◌, ◌-◌, true,
}
use any2helios_db.Record.{ChangeRecord}
use any2helios_db.Record.Codec.{Text, NoNewline}
use any2helios_db.Trail.{
  read, append, append_at, must_rotate, active_size, active_index, encode_records,
}
use any2helios_db.Trail.Layout.{Layout, records_of, trail_of}
use any2helios_db.Trail.Reading.{limited, read-eq-limited}
use any2helios_db.Trail.Appending.{read-append}
use any2helios_db.Trail.Heal.{heal_torn_tail}
use any2helios_db.Trail.Heal.Restores.{heal_torn_tail-restores}
use any2helios_db.Trail.Purge.{reconcile_purged, crashed_purge}
use any2helios_db.Trail.Purge.Crash.{read-crashed_purge}
use any2helios_db.Examples.Sample.{plain, unary_codec}

abbrev two_segments : Layout
two_segments = (1, plain 3 ∷ plain 4 ∷ []) ∷ (2, plain 5 ∷ []) ∷ []

abbrev torn : Text
torn = b'{' ∷ b'x' ∷ []

torn-NoNewline : NoNewline torn
torn-NoNewline = (refl, (refl, tt))

read-eq-limited_example :
    read unary_codec (trail_of unary_codec 3 (some 0) 64 two_segments torn) 4 (some 5)
    ≡ some (
      map unary_codec.canon (limited (some 5) (drop (4 - 3) (records_of two_segments))),
      max 4 3 + length (limited (some 5) (drop (4 - 3) (records_of two_segments))),
    )
read-eq-limited_example =
    read-eq-limited unary_codec 3 (some 0) 64 two_segments torn 4 (some 5) torn-NoNewline
      (omega arith)

abbrev last_segment : Layout
last_segment = (99999, plain 3 ∷ []) ∷ []

read-append_example :
    let (t, n) =
      append unary_codec (trail_of unary_codec 3 (some 0) 64 two_segments []) (plain 6 ∷ []) in
    let found = limited none (drop (5 - 3) (records_of two_segments ++ plain 6 ∷ [])) in
    (read unary_codec t 5 none ≡ some (map unary_codec.canon found, max 5 3 + length found))
    × (n ≡ length {A = ChangeRecord} (plain 6 ∷ []))
read-append_example =
    read-append unary_codec (some 0) 3 64 two_segments (plain 6 ∷ []) 5 none
      (omega arith, (omega arith, tt)) tt (omega arith) tt

heal_torn_tail-restores_example :
    heal_torn_tail (trail_of unary_codec 3 (some 0) 64 two_segments torn)
    ≡ (trail_of unary_codec 3 (some 0) 64 two_segments [], true)
heal_torn_tail-restores_example =
    heal_torn_tail-restores unary_codec 3 (some 0) 64 (1, plain 3 ∷ plain 4 ∷ [])
      ((2, plain 5 ∷ []) ∷ []) torn torn-NoNewline

read-crashed_purge_example :
    let t = trail_of unary_codec 3 (some 0) 64 two_segments torn in
    read unary_codec (reconcile_purged (crashed_purge t 5 1)) 6 none ≡ read unary_codec t 6 none
read-crashed_purge_example =
    read-crashed_purge unary_codec torn 1 5 3 64 (some 0) two_segments 6 none
      (omega arith, (omega arith, tt)) torn-NoNewline tt (omega arith)

-- The file of the segment behind number 99999 is not listed, and what is appended is not read.
append_unlisted :
    (append unary_codec (trail_of unary_codec 0 (some 99998) 1 last_segment []) (plain 6 ∷ [])).0
    ≡ trail_of unary_codec 0 (some 99998) 1 last_segment []
unfolding append append_at must_rotate active_size active_index encode_records
append_unlisted = refl
