-- ===== src/Export/Worker/Split.antt =====
-- `split_records` of crates/eden_logger_export/src/worker.rs: a rejected batch is cut in two. A
-- `Vec` used as a stack is a list with its top first.
use eden_logger.Base.{
  ◌/◌, ◌≡◌, sym, ap, ◌∙◌, List, [], ◌∷◌, ◌++◌, append_assoc, length, take, drop, take-append-drop,
}

module _ {ℓ} {A : Type ℓ} where
  unfoldable pub split_records : List A → List (List A) → List (List A)
  split_records records pending =
      take (length records / 2) records ∷ drop (length records / 2) records ∷ pending

  -- The records of all batches, from the top of the stack down.
  unfoldable pub flatten : List (List A) → List A
  flatten [] = []
  flatten (b ∷ bs) = b ++ flatten bs

  pub flatten-split_records :
      (records : List A) (pending : List (List A))
      → flatten (split_records records pending) ≡ records ++ flatten pending
  unfolding split_records flatten
  flatten-split_records records pending =
      sym (
        append_assoc (take (length records / 2) records) (drop (length records / 2) records)
          (flatten pending))
      ∙ ap (λ r. r ++ flatten pending) (take-append-drop (length records / 2) records)
