-- ===== src/Registry/Rows.antt =====
-- The texts of the tables and the rows of the registry after they are written.
use any2helios_db.Prelude.{
  ◌≡◌, refl, ap, String, true, false, none, List, [], ◌∷◌, ◌++◌, ◌==◌, str_eq, eq_iff, arith,
  Bool-cases, inl, inr,
}
use mathlib.Core.Option
use mathlib.Core.Option.{none-ne-some, some_inj}
use any2helios_db.Record.Codec.{Text}
use any2helios_db.Trail.{is_empty}
use any2helios_db.CopyCodec.{join_fields, split_fields}
use any2helios_db.Ledger.{update_where, first_where}
use any2helios_db.Registry.{Row, Registry, has_comma, any_comma, join_tables, nonempty, is_named}

split_fields-comma :
    (t rest : Text)
    → has_comma t ≡ false
    → split_fields 44 (t ++ 44 ∷ rest) ≡ t ∷ split_fields 44 rest
unfolding split_fields
split_fields-comma [] rest h = refl
split_fields-comma (c ∷ t) rest h = elim (Bool-cases (c == 44)) [
  | inl is ↦ absurd (ground (arith, h))
  | inr other ↦
      let clean : has_comma t ≡ false = ground (arith, h) in
      rw (other, split_fields-comma t rest clean) refl
]

split_fields-last : (t : Text) → has_comma t ≡ false → split_fields 44 t ≡ t ∷ []
unfolding split_fields
split_fields-last [] h = refl
split_fields-last (c ∷ t) h = elim (Bool-cases (c == 44)) [
  | inl is ↦ absurd (ground (arith, h))
  | inr other ↦
      let clean : has_comma t ≡ false = ground (arith, h) in
      rw (other, split_fields-last t clean) refl
]

-- The names that are not empty come back from the text in their order.
pub nonempty-join_tables :
    (ts : List Text)
    → any_comma ts ≡ false
    → nonempty (split_fields 44 (join_tables ts)) ≡ nonempty ts
unfolding any_comma join_fields
nonempty-join_tables [] h = unfold split_fields in refl
nonempty-join_tables (t ∷ []) h =
    let clean : has_comma t ≡ false = ground (arith, h) in rw (split_fields-last t clean) refl
nonempty-join_tables (t ∷ u ∷ ts) h =
    let clean : has_comma t ≡ false = ground (arith, h) in
    let more : any_comma (u ∷ ts) ≡ false = ground (arith, h) in
    rw (split_fields-comma t (join_tables (u ∷ ts)) clean) (elim (Bool-cases (is_empty t)) [
      | inl blank ↦ rw (blank) (nonempty-join_tables (u ∷ ts) more)
      | inr named ↦ rw (named) (ap (λ (l : List Text). t ∷ l) (nonempty-join_tables (u ∷ ts) more))
    ])

module _ (name : String) (change : Row → Row)
    (same_name : (r : Row) → (change r).name ≡ r.name) where
  pub first_where-update_where :
      (rows : Registry)
      → first_where (is_named name) (update_where (is_named name) change rows)
        ≡ Option.map change (first_where (is_named name) rows)
  first_where-update_where [] = refl
  first_where-update_where (r ∷ rs) = elim (Bool-cases (is_named name r)) [
    | inl is ↦
        let named : is_named name (change r) ≡ true = rw (same_name r) is in rw (is, named) refl
    | inr isnt ↦ rw (isnt, isnt) (first_where-update_where rs)
  ]

  pub first_where-update_other :
      (other : String) (rows : Registry)
      → str_eq name other ≡ false
      → first_where (is_named other) (update_where (is_named name) change rows)
        ≡ first_where (is_named other) rows
  first_where-update_other other [] h = refl
  first_where-update_other other (r ∷ rs) h = elim (Bool-cases (is_named name r)) [
    | inl is ↦
        let at : r.name ≡ name = (eq_iff r.name name).0 is in
        let before : is_named other r ≡ false = rw at h in
        let after : is_named other (change r) ≡ false = rw (same_name r) before in
        rw (is, before, after, first_where-update_other other rs h) refl
    | inr isnt ↦ rw (isnt, first_where-update_other other rs h) refl
  ]

pub first_where-snoc :
    (name : String) (rows : Registry) (new : Row)
    → first_where (is_named name) rows ≡ none
    → first_where (is_named name) (rows ++ new ∷ []) ≡ first_where (is_named name) (new ∷ [])
first_where-snoc name [] new h = refl
first_where-snoc name (r ∷ rs) new h = elim (Bool-cases (is_named name r)) [
  | inl is ↦ absurd (ground (arith, is, h))
  | inr isnt ↦
      let later : first_where (is_named name) rs ≡ none = ground (arith, isnt, h) in
      rw isnt (first_where-snoc name rs new later)
]

pub first_where-snoc_other :
    (other : String) (rows : Registry) (new : Row)
    → is_named other new ≡ false
    → first_where (is_named other) (rows ++ new ∷ []) ≡ first_where (is_named other) rows
first_where-snoc_other other [] new h = rw h refl
first_where-snoc_other other (r ∷ rs) new h = rw (first_where-snoc_other other rs new h) refl
