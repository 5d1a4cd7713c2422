-- ===== src/Export/Collector/Order.antt =====
-- What draining does with the order of the records: every lane is emptied, and the records of one
-- thread come out in the order in which it queued them.
use eden_logger.Export.Collector.{QueueKind, normal_queue, reserved_queue, QueuedLog, LaneQueues}
use eden_logger.Export.Collector.Drain.{
  drain_quantum, source, with_source, drain_pass, drain_passes, waiting, drain_batches,
}
use eden_logger.Base.{
  ℕ, zero, suc, ◌+◌, ◌≤◌, ◌<◌, ◌≡◌, refl, sym, ap, ◌∙◌, ◌⊎◌, inl, inr, Bool, true, false, List, [],
  ◌∷◌, ◌++◌, append-nil, append_assoc, arith, if◌then◌else◌, Bool-cases, is_nil, length, take, drop,
  length-append, take-append-drop, length-take, length-drop, All,
}

-- The elements for which a test holds.
abbrev pub select {ℓ} : {A : Type ℓ} → (A → Bool) → List A → List A
select p [] = []
select p (x ∷ xs) = if p x then x ∷ select p xs else select p xs

module _ {ℓ} {A : Type ℓ} where
  select-append : (p : A → Bool) (xs ys : List A) → select p (xs ++ ys) ≡ select p xs ++ select p ys
  select-append p [] ys = refl
  select-append p (x ∷ xs) ys = elim (Bool-cases (p x)) [
    | inl e ↦ rw e (ap (λ l. x ∷ l) (select-append p xs ys))
    | inr e ↦ rw e (select-append p xs ys)
  ]

  select-take-drop :
      (p : A → Bool) (n : ℕ) (xs : List A)
      → select p (take n xs) ++ select p (drop n xs) ≡ select p xs
  select-take-drop p n xs =
      sym (select-append p (take n xs) (drop n xs)) ∙ ap (select p) (take-append-drop n xs)

  append-nil-left : (xs ys : List A) → xs ++ ys ≡ [] → xs ≡ []
  append-nil-left [] ys h = refl
  append-nil-left (x ∷ xs) ys h = ground arith

  append-nil-right : (xs ys : List A) → xs ++ ys ≡ [] → ys ≡ []
  append-nil-right [] ys h = h
  append-nil-right (x ∷ xs) ys h = ground arith

  pub source-with_source :
      (kind : QueueKind) (b : LaneQueues A) (xs : List (QueuedLog A))
      → source kind (with_source kind b xs) ≡ xs
  unfolding source with_source
  source-with_source normal_queue b xs = refl
  source-with_source reserved_queue b xs = refl

  pub length-zero : (xs : List (QueuedLog A)) → length xs ≡ 0 → xs ≡ []
  length-zero [] h = refl
  length-zero (x ∷ xs) h = absurd (omega (arith, h))

  pub is_nil-eq : (xs : List (QueuedLog A)) → is_nil xs ≡ true → xs ≡ []
  is_nil-eq [] h = refl
  is_nil-eq (x ∷ xs) h = ground arith

  is_nil-length : (xs : List (QueuedLog A)) → is_nil xs ≡ false → 1 ≤ length xs
  is_nil-length [] h = ground arith
  is_nil-length (x ∷ xs) h = omega arith

  -- A pass takes what it drains, and nothing only from lanes without a record.
  waiting-drain_pass :
      (kind : QueueKind) (bs : List (LaneQueues A))
      → (length (drain_pass kind bs).0 + waiting kind (drain_pass kind bs).1 ≡ waiting kind bs)
        × (length (drain_pass kind bs).0 ≡ 0 → waiting kind bs ≡ 0)
  unfolding drain_pass
  waiting-drain_pass kind [] = (refl, λ _. refl)
  waiting-drain_pass kind (b ∷ bs) =
      let (count, none_left) = waiting-drain_pass kind bs in
      let xs = source kind b in
      ground (
        arith,
        count,
        none_left,
        length-append (take drain_quantum xs) (drain_pass kind bs).0,
        length-take drain_quantum xs,
        length-drop drain_quantum xs,
        ap length (source-with_source kind b (drop drain_quantum xs)),
      )

  pub waiting-drain_passes :
      (fuel : ℕ) (kind : QueueKind) (bs : List (LaneQueues A))
      → waiting kind bs < fuel
      → waiting kind (drain_passes fuel kind bs).1 ≡ 0
  unfolding drain_passes
  waiting-drain_passes zero kind bs h = absurd (omega arith)
  waiting-drain_passes (suc fuel) kind bs h =
      let (count, none_left) = waiting-drain_pass kind bs in
      elim (Bool-cases (is_nil (drain_pass kind bs).0)) [
        | inl e ↦
            rw e (
              omega
                (arith, count, none_left (ap length (is_nil-eq _ e)), ap length (is_nil-eq _ e)))
        | inr e ↦ rw e (
            waiting-drain_passes fuel kind (drain_pass kind bs).1
              (omega (arith, count, is_nil-length _ e)))
      ]

module _ {ℓ} {A : Type ℓ} (kind : QueueKind) (p : QueuedLog A → Bool) where
  -- No record of the lanes passes the test.
  abbrev pub Free : List (LaneQueues A) → Type ℓ
  Free = All (λ batch. select p (source kind batch) ≡ [])

  -- At most one lane has records that pass it.
  abbrev Solo : List (LaneQueues A) → Type ℓ
  Solo [] = Unit
  Solo (b ∷ bs) = ((select p (source kind b) ≡ []) × Solo bs) ⊎ Free bs

  abbrev selected : List (LaneQueues A) → List (QueuedLog A)
  selected [] = []
  selected (b ∷ bs) = select p (source kind b) ++ selected bs

  free-drain :
      (b : LaneQueues A)
      → select p (source kind b) ≡ []
      → (select p (take drain_quantum (source kind b)) ≡ [])
        × (select p (source kind (with_source kind b (drop drain_quantum (source kind b)))) ≡ [])
  free-drain b h =
      let parts = select-take-drop p drain_quantum (source kind b) ∙ h in
      (
        append-nil-left _ _ parts,
        ap (select p) (source-with_source kind b (drop drain_quantum (source kind b)))
            ∙ append-nil-right (select p (take drain_quantum (source kind b))) _ parts,
      )

  drain_pass-Free :
      (bs : List (LaneQueues A))
      → Free bs
      → (select p (drain_pass kind bs).0 ≡ []) × Free (drain_pass kind bs).1
  unfolding drain_pass
  drain_pass-Free [] h = (refl, tt)
  drain_pass-Free (b ∷ bs) h =
      let (none_out, free_rest) = drain_pass-Free bs h.1 in
      let (none_taken, none_left) = free-drain b h.0 in
      (
        select-append p (take drain_quantum (source kind b)) (drain_pass kind bs).0
            ∙ rw (none_taken, none_out) refl,
        (none_left, free_rest),
      )

  selected-Free : (bs : List (LaneQueues A)) → Free bs → selected bs ≡ []
  selected-Free [] h = refl
  selected-Free (b ∷ bs) h = rw h.0 (selected-Free bs h.1)

  drain_pass-order :
      (bs : List (LaneQueues A))
      → Solo bs
      → (select p (drain_pass kind bs).0 ++ selected (drain_pass kind bs).1 ≡ selected bs)
        × Solo (drain_pass kind bs).1
  unfolding drain_pass
  drain_pass-order [] h = (refl, tt)
  drain_pass-order (b ∷ bs) (inl (free, solo)) =
      let (order, after) = drain_pass-order bs solo in
      let (none_taken, none_left) = free-drain b free in
      (
        ap
              (λ l.
                l
                ++ (select p (source kind (with_source kind b (drop drain_quantum (source kind b))))
                    ++ selected (drain_pass kind bs).1))
              (select-append p (take drain_quantum (source kind b)) (drain_pass kind bs).0)
            ∙ rw (none_taken, none_left, free) order,
        inl (none_left, after),
      )
  drain_pass-order (b ∷ bs) (inr free) =
      let (none_out, free_rest) = drain_pass-Free bs free in
      (
        ap
              (λ l.
                l
                ++ (select p (source kind (with_source kind b (drop drain_quantum (source kind b))))
                    ++ selected (drain_pass kind bs).1))
              (select-append p (take drain_quantum (source kind b)) (drain_pass kind bs).0)
            ∙ rw
                (
                  none_out,
                  selected-Free bs free,
                  selected-Free (drain_pass kind bs).1 free_rest,
                  source-with_source kind b (drop drain_quantum (source kind b)),
                  append-nil,
                  append-nil,
                  append-nil,
                )
                (select-take-drop p drain_quantum (source kind b)),
        inr free_rest,
      )

  drain_passes-order :
      (fuel : ℕ) (bs : List (LaneQueues A))
      → Solo bs
      → select p (drain_passes fuel kind bs).0 ++ selected (drain_passes fuel kind bs).1
        ≡ selected bs
  unfolding drain_passes
  drain_passes-order zero bs h = refl
  drain_passes-order (suc fuel) bs h =
      let (order, after) = drain_pass-order bs h in
      elim (Bool-cases (is_nil (drain_pass kind bs).0)) [
        | inl e ↦ rw e (rw (is_nil-eq _ e) at order)
        | inr e ↦
            rw (e, select-append p (drain_pass kind bs).0, append_assoc)
              (ap (λ l. select p (drain_pass kind bs).0 ++ l)
                  (drain_passes-order fuel (drain_pass kind bs).1 after)
                ∙ order)
      ]

  Solo-lanes :
      (before after : List (LaneQueues A)) (b : LaneQueues A)
      → Free before
      → Free after
      → Solo (before ++ b ∷ after)
  Solo-lanes [] after b hb ha = inr ha
  Solo-lanes (c ∷ before) after b hb ha = inl (hb.0, Solo-lanes before after b hb.1 ha)

  selected-lanes :
      (before after : List (LaneQueues A)) (b : LaneQueues A)
      → Free before
      → Free after
      → selected (before ++ b ∷ after) ≡ select p (source kind b)
  selected-lanes [] after b hb ha = rw (selected-Free after ha) (append-nil _)
  selected-lanes (c ∷ before) after b hb ha = rw hb.0 (selected-lanes before after b hb.1 ha)

  selected-waiting : (bs : List (LaneQueues A)) → waiting kind bs ≡ 0 → selected bs ≡ []
  selected-waiting [] h = refl
  selected-waiting (b ∷ bs) h =
      rw (length-zero (source kind b) (omega (arith, h))) (selected-waiting bs (omega (arith, h)))

  -- Draining empties one kind of queue of every lane. If one lane alone holds records that pass a
  -- test, such as those of its thread, they come out in the order in which that lane had them.
  pub drain_batches-order :
      (before after : List (LaneQueues A)) (b : LaneQueues A)
      → Free before
      → Free after
      → let lanes = before ++ b ∷ after in
        (select p (drain_batches kind lanes).0 ≡ select p (source kind b))
        × (waiting kind (drain_batches kind lanes).1 ≡ 0)
  unfolding drain_batches
  drain_batches-order before after b hb ha =
      let lanes = before ++ b ∷ after in
      let empty = waiting-drain_passes (suc (waiting kind lanes)) kind lanes (omega arith) in
      (
        sym (append-nil _)
            ∙ ap (λ l. select p (drain_passes (suc (waiting kind lanes)) kind lanes).0 ++ l)
                (sym (selected-waiting _ empty))
            ∙ drain_passes-order (suc (waiting kind lanes)) lanes (Solo-lanes before after b hb ha)
            ∙ selected-lanes before after b hb ha,
        empty,
      )
