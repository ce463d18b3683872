-- ===== src/Replicat/Reconcile/Batches.antt =====
-- What is deleted: the keys that the source does not have, each once, in batches of bounded size.
use any2helios_db.Prelude.{
  ℕ, suc, ◌+◌, ◌≤◌, ◌<◌, ◌≡◌, refl, ap, ◌∙◌, String, true, false, not, ◌&&◌, Option, none, some,
  List, [], ◌∷◌, ◌++◌, append_assoc, leb, ◌==◌, if◌then◌else◌, length, length-append, arith,
  Bool-cases, inl, inr,
}
use any2helios_db.Replicat.{Driver, Config}
use any2helios_db.Replicat.Reconcile.{
  Key, Progress, after_delete, has_key, delete_batch, surplus_loop,
}

abbrev pub join_batches : List (List Key) → List Key
join_batches [] = []
join_batches (b ∷ bs) = b ++ join_batches bs

-- A batch has a key, and with a limit no more than the limit.
abbrev pub FitsBatch : ℕ → List Key → Type 0
FitsBatch chunk_size b = (1 ≤ length b) × ((chunk_size == 0) ≡ false → length b ≤ chunk_size)

abbrev pub AreBatches : ℕ → List (List Key) → Type 0
AreBatches chunk_size [] = Unit
AreBatches chunk_size (b ∷ bs) = FitsBatch chunk_size b × AreBatches chunk_size bs

module _ {S : Type 0} (D : Driver S) (cfg : Config) where
  -- The keys that the source does not have.
  abbrev pub surplus_of : List Key → List Key → List Key
  surplus_of src_keys [] = []
  surplus_of src_keys (k ∷ keys) =
      let rest = surplus_of src_keys keys in if has_key D cfg src_keys k then rest else k ∷ rest

  -- The batches one after the other, until one raises.
  abbrev pub delete_batches : String → List String → List (List Key) → ℕ → S → S × Progress
  delete_batches table key_idents [] deleted s = (s, (deleted, true))
  delete_batches table key_idents (b ∷ bs) deleted s =
      delete_batch D cfg table key_idents b deleted (delete_batches table key_idents bs) s

  module _ (table : String) (key_idents : List String) (src_keys : List Key) (chunk_size : ℕ) where
    -- The buffer is not full.
    abbrev HasRoom : List Key → Type 0
    HasRoom surplus = (chunk_size == 0) ≡ false → length surplus < chunk_size

    abbrev IsCut : List Key → List Key → Type 0
    IsCut keys surplus =
        (batches : List (List Key)) × (join_batches batches ≡ surplus ++ surplus_of src_keys keys)
        × AreBatches chunk_size batches
        × ((deleted : ℕ) (s : S)
            → surplus_loop D cfg table key_idents src_keys chunk_size keys surplus deleted s
              ≡ delete_batches table key_idents batches deleted s)

    after_delete-cong :
        (m : S × Option ℕ) (deleted : ℕ) (k k' : ℕ → S → S × Progress)
        → ((n : ℕ) (s : S) → k n s ≡ k' n s)
        → after_delete D cfg table key_idents m deleted k
          ≡ after_delete D cfg table key_idents m deleted k'
    after_delete-cong (s, none) deleted k k' h = refl
    after_delete-cong (s, some n) deleted k k' h = h (deleted + n) s

    empty_fits : (chunk_size == 0) ≡ false → 0 < chunk_size
    empty_fits on = ground arith

    fits :
        (surplus : List Key) (k : Key) → HasRoom surplus → FitsBatch chunk_size (surplus ++ k ∷ [])
    fits surplus k room =
        let total : length (surplus ++ k ∷ []) ≡ length surplus + 1 =
          length-append surplus (k ∷ []) in
        (omega arith, λ on. let below : length surplus < chunk_size = room on in omega arith)

    still_room :
        (grown : List Key)
        → (chunk_size == 0) ≡ false
        → (not (chunk_size == 0) && leb chunk_size (length grown)) ≡ false
        → length grown < chunk_size
    still_room grown on h = ground (arith, on, h)

    surplus_loop-IsCut : (keys surplus : List Key) → HasRoom surplus → IsCut keys surplus
    unfolding surplus_loop
    surplus_loop-IsCut [] [] room = ([], refl, tt, λ deleted s. refl)
    surplus_loop-IsCut [] (q ∷ qs) room =
        ((q ∷ qs) ∷ [], refl, ((omega arith, λ on. below (room on)), tt), λ deleted s. refl)
      where
        below : suc (length qs) < chunk_size → suc (length qs) ≤ chunk_size
        below h = omega arith
    surplus_loop-IsCut (k ∷ keys) surplus room = elim (Bool-cases (has_key D cfg src_keys k)) [
      | inl there ↦ rw there (surplus_loop-IsCut keys surplus room)
      | inr gone ↦
          elim (Bool-cases (not (chunk_size == 0) && leb chunk_size (length (surplus ++ k ∷ [])))) [
            | inl full ↦
                let (bs, joined, ok, runs) = surplus_loop-IsCut keys [] (λ on. empty_fits on) in
                rw (gone, full)
                  (
                    (surplus ++ k ∷ []) ∷ bs,
                    append_assoc surplus (k ∷ []) (join_batches bs)
                        ∙ ap (λ (t : List Key). surplus ++ k ∷ t) joined,
                    ((fits surplus k (λ on. room on)), ok),
                    λ deleted s.
                        after_delete-cong (D.delete_keys table key_idents (surplus ++ k ∷ []) s)
                          deleted _ _ (λ n s'. runs n s'),
                  )
            | inr roomy ↦
                let (bs, joined, ok, runs) =
                  surplus_loop-IsCut keys (surplus ++ k ∷ [])
                    (λ on. still_room (surplus ++ k ∷ []) on roomy) in
                rw (gone, roomy)
                  (bs, joined ∙ append_assoc surplus (k ∷ []) (surplus_of src_keys keys), ok, runs)
          ]
    ]

-- The reconciliation of a table deletes the keys that the target has and the source does not, each
-- as often as the target lists it and in that order, and no other key. They go in batches: none is
-- empty, and none has more keys than the limit, where there is one. The first batch that raises
-- ends it, and the rows that were deleted before stay counted.
pub surplus_loop-delete_batches :
    {S : Type 0} (D : Driver S) (cfg : Config) (table : String) (key_idents : List String)
    (src_keys keys : List Key) (chunk_size : ℕ)
    → (batches : List (List Key)) × (join_batches batches ≡ surplus_of D cfg src_keys keys)
      × AreBatches chunk_size batches
      × ((deleted : ℕ) (s : S)
          → surplus_loop D cfg table key_idents src_keys chunk_size keys [] deleted s
            ≡ delete_batches D cfg table key_idents batches deleted s)
surplus_loop-delete_batches D cfg table key_idents src_keys keys chunk_size =
    surplus_loop-IsCut D cfg table key_idents src_keys chunk_size keys []
      (λ on. empty_fits D cfg table key_idents src_keys chunk_size on)
