-- ===== src/Export/Collector/Accounting/Lanes.antt =====
-- Sums over the records of the lanes, and that draining moves every record to the worker's inbox.
use eden_logger.Export.Collector.{
  QueueKind, normal_queue, reserved_queue, QueuedLog, LaneQueues, ProducerLane, LogCollector,
  WorkerInput, push_queue, push, queues_empty, is_closed_and_empty, has_lane, push_to, new_lane,
  pop_parts,
}
use eden_logger.Export.Collector.Drain.{
  drain_quantum, rotate, source, with_source, drain_pass, drain_passes, waiting, drain_batches,
  retain,
}
use eden_logger.Export.Collector.Order.{is_nil-eq}
use eden_logger.Base.{
  ℕ, zero, suc, ◌+◌, ◌≡◌, refl, ap, inl, inr, true, Option, none, some, List, [], ◌∷◌, ◌++◌, map,
  arith, Bool-cases, is_nil, take, drop, take-append-drop,
}

module _ {ℓ} {A : Type ℓ} (w : QueuedLog A → ℕ) where
  abbrev pub total : List (QueuedLog A) → ℕ
  total [] = 0
  total (x ∷ xs) = w x + total xs

  abbrev pub queues_total : LaneQueues A → ℕ
  queues_total q = total q.normal + total q.reserved

  abbrev pub batches_total : List (LaneQueues A) → ℕ
  batches_total [] = 0
  batches_total (b ∷ bs) = queues_total b + batches_total bs

  abbrev pub lanes_total : List (ProducerLane A) → ℕ
  lanes_total [] = 0
  lanes_total (l ∷ ls) = queues_total l.queues + lanes_total ls

  -- What the lanes and the inbox hold.
  abbrev pub held : LogCollector A → WorkerInput A → ℕ
  held c input = lanes_total c.lanes + (total input.reserved + total input.normal)

  pub total-append : (xs ys : List (QueuedLog A)) → total (xs ++ ys) ≡ total xs + total ys
  total-append [] ys = omega arith
  total-append (x ∷ xs) ys = omega (arith, total-append xs ys)

  lanes_total-append :
      (xs ys : List (ProducerLane A)) → lanes_total (xs ++ ys) ≡ lanes_total xs + lanes_total ys
  lanes_total-append [] ys = omega arith
  lanes_total-append (x ∷ xs) ys = omega (arith, lanes_total-append xs ys)

  pub lanes_total-rotate :
      (n : ℕ) (xs : List (ProducerLane A)) → lanes_total (rotate n xs) ≡ lanes_total xs
  lanes_total-rotate n xs = omega (
    arith,
    lanes_total-append (drop n xs) (take n xs),
    lanes_total-append (take n xs) (drop n xs),
    ap lanes_total (take-append-drop n xs),
  )

  queues_total-push_queue :
      (k : QueueKind) (x : QueuedLog A) (q : LaneQueues A)
      → queues_total (push_queue k x q) ≡ queues_total q + w x
  unfolding push_queue
  queues_total-push_queue normal_queue x q = omega (arith, total-append q.normal (x ∷ []))
  queues_total-push_queue reserved_queue x q = omega (arith, total-append q.reserved (x ∷ []))

  pub lanes_total-push_to :
      (thread : ℕ) (x : QueuedLog A) (ls : List (ProducerLane A))
      → has_lane thread ls ≡ true
      → lanes_total (push_to thread x ls) ≡ lanes_total ls + w x
  unfolding push_to has_lane push
  lanes_total-push_to thread x [] h = ground arith
  lanes_total-push_to thread x (l ∷ ls) h =
      ground (arith, queues_total-push_queue x.queue x l.queues, lanes_total-push_to thread x ls)

  pub lanes_total-new_lane :
      (thread : ℕ) (ls : List (ProducerLane A))
      → lanes_total (ls ++ new_lane thread ∷ []) ≡ lanes_total ls
  lanes_total-new_lane thread ls = omega (arith, lanes_total-append ls (new_lane thread ∷ []))

  queues_total-empty : (q : LaneQueues A) → queues_empty q ≡ true → queues_total q ≡ 0
  unfolding queues_empty
  queues_total-empty q h = omega (
    arith,
    ap total (is_nil-eq q.normal (ground arith)),
    ap total (is_nil-eq q.reserved (ground arith)),
  )

  pub lanes_total-retain : (ls : List (ProducerLane A)) → lanes_total (retain ls) ≡ lanes_total ls
  unfolding retain is_closed_and_empty
  lanes_total-retain [] = refl
  lanes_total-retain (l ∷ ls) = ground (arith, lanes_total-retain ls, queues_total-empty l.queues)

  queues_total-source :
      (k : QueueKind) (b : LaneQueues A) (xs : List (QueuedLog A))
      → queues_total (with_source k b xs) + total (source k b) ≡ total xs + queues_total b
  unfolding with_source source
  queues_total-source normal_queue b xs = omega arith
  queues_total-source reserved_queue b xs = omega arith

  batches_total-drain_pass :
      (k : QueueKind) (bs : List (LaneQueues A))
      → total (drain_pass k bs).0 + batches_total (drain_pass k bs).1 ≡ batches_total bs
  unfolding drain_pass
  batches_total-drain_pass k [] = refl
  batches_total-drain_pass k (b ∷ bs) =
      let xs = source k b in
      omega (
        arith,
        batches_total-drain_pass k bs,
        queues_total-source k b (drop drain_quantum xs),
        total-append (take drain_quantum xs) (drain_pass k bs).0,
        total-append (take drain_quantum xs) (drop drain_quantum xs),
        ap total (take-append-drop drain_quantum xs),
      )

  batches_total-drain_passes :
      (fuel : ℕ) (k : QueueKind) (bs : List (LaneQueues A))
      → total (drain_passes fuel k bs).0 + batches_total (drain_passes fuel k bs).1
        ≡ batches_total bs
  unfolding drain_passes
  batches_total-drain_passes zero k bs = omega arith
  batches_total-drain_passes (suc fuel) k bs =
      let pass = batches_total-drain_pass k bs in
      elim (Bool-cases (is_nil (drain_pass k bs).0)) [
        | inl e ↦ rw e (omega (arith, pass, ap total (is_nil-eq _ e)))
        | inr e ↦ rw e (
            omega (
              arith,
              pass,
              batches_total-drain_passes fuel k (drain_pass k bs).1,
              total-append (drain_pass k bs).0 (drain_passes fuel k (drain_pass k bs).1).0,
            ))
      ]

  pub lanes_total-queues :
      (ls : List (ProducerLane A)) → batches_total (map (λ l. l.queues) ls) ≡ lanes_total ls
  lanes_total-queues [] = refl
  lanes_total-queues (l ∷ ls) = omega (arith, lanes_total-queues ls)

  pub held-drain_batches :
      (k : QueueKind) (bs : List (LaneQueues A))
      → total (drain_batches k bs).0 + batches_total (drain_batches k bs).1 ≡ batches_total bs
  unfolding drain_batches
  held-drain_batches k bs = batches_total-drain_passes (suc (waiting k bs)) k bs

  -- What is popped, with what is left.
  abbrev pub popped : Option (QueuedLog A × WorkerInput A) → ℕ
  popped none = 0
  popped (some (x, rest)) = w x + (total rest.reserved + total rest.normal)

  pub popped-pop_parts :
      (xs ys : List (QueuedLog A)) → popped (pop_parts xs ys) ≡ total xs + total ys
  unfolding pop_parts
  popped-pop_parts [] [] = omega arith
  popped-pop_parts (a ∷ xs) ys = omega arith
  popped-pop_parts [] (a ∷ ys) = omega arith
