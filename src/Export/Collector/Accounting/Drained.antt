-- ===== src/Export/Collector/Accounting/Drained.antt =====
-- What a drain leaves: empty lanes with empty spares, all records in the worker's inbox.
use eden_logger.Export.Collector.{
  normal_queue, reserved_queue, QueuedLog, LaneQueues, ProducerLane, LogCollector, WorkerInput,
  spare_or_new, take_queues, recycle, push_to, push, new_lane, close_lane, is_closed_and_empty,
}
use eden_logger.Export.Collector.Drain.{
  rotate, source, with_source, drain_pass, drain_passes, waiting, drain_batches, retain,
  recycle_all, drain_lanes, drain_from, drain_into,
}
use eden_logger.Export.Collector.Order.{waiting-drain_passes, length-zero}
use eden_logger.Export.Collector.Accounting.Lanes.{
  total, queues_total, batches_total, lanes_total, held, total-append, lanes_total-rotate,
  lanes_total-retain, lanes_total-queues, held-drain_batches,
}
use eden_logger.Base.{
  ℕ, zero, suc, ◌+◌, ◌-◌, ◌%◌, ◌≡◌, refl, ap, ◌∙◌, inl, inr, true, Option, none, some, List, [],
  ◌∷◌, ◌++◌, map, arith, ◌==◌, Bool-cases, is_nil, length, take, drop, All, All-append,
}

module _ {ℓ} {A : Type ℓ} where
  abbrev IsEmpty : LaneQueues A → Type 0
  IsEmpty q = (length q.normal ≡ 0) × (length q.reserved ≡ 0)

  abbrev SpareEmpty : Option (LaneQueues A) → Type 0
  SpareEmpty none = Unit
  SpareEmpty (some q) = IsEmpty q

  -- The queues that wait for the next swap hold no record.
  abbrev pub Clean : List (ProducerLane A) → Type 0
  Clean = All (λ lane. SpareEmpty lane.worker_spare)

  spare_or_new-IsEmpty : (s : Option (LaneQueues A)) → SpareEmpty s → IsEmpty (spare_or_new s)
  unfolding spare_or_new
  spare_or_new-IsEmpty none h = (refl, refl)
  spare_or_new-IsEmpty (some q) h = h

  queues_total-IsEmpty : (w : QueuedLog A → ℕ) (q : LaneQueues A) → IsEmpty q → queues_total w q ≡ 0
  queues_total-IsEmpty w q h =
      omega
        (arith, ap (total w) (length-zero q.normal h.0), ap (total w) (length-zero q.reserved h.1))

  IsEmpty-waiting :
      (bs : List (LaneQueues A))
      → waiting normal_queue bs ≡ 0
      → waiting reserved_queue bs ≡ 0
      → All IsEmpty bs
  unfolding source
  IsEmpty-waiting [] n r = tt
  IsEmpty-waiting (b ∷ bs) n r = (
    (omega (arith, n), omega (arith, r)),
    IsEmpty-waiting bs (omega (arith, n)) (omega (arith, r)),
  )

  -- Draining one kind of queue leaves the other.
  waiting-other :
      (bs : List (LaneQueues A))
      → waiting reserved_queue (drain_pass normal_queue bs).1 ≡ waiting reserved_queue bs
  unfolding drain_pass source with_source
  waiting-other [] = refl
  waiting-other (b ∷ bs) = omega (arith, waiting-other bs)

  waiting-others :
      (fuel : ℕ) (bs : List (LaneQueues A))
      → waiting reserved_queue (drain_passes fuel normal_queue bs).1 ≡ waiting reserved_queue bs
  unfolding drain_passes
  waiting-others zero bs = refl
  waiting-others (suc fuel) bs =
      ground (arith, waiting-other bs, waiting-others fuel (drain_pass normal_queue bs).1)

  drained-IsEmpty :
      (bs : List (LaneQueues A))
      → All IsEmpty (drain_batches normal_queue (drain_batches reserved_queue bs).1).1
  unfolding drain_batches
  drained-IsEmpty bs =
      let after = (drain_passes (suc (waiting reserved_queue bs)) reserved_queue bs).1 in
      IsEmpty-waiting _
        (waiting-drain_passes (suc (waiting normal_queue after)) normal_queue after (omega arith))
        (waiting-others (suc (waiting normal_queue after)) after
          ∙ waiting-drain_passes (suc (waiting reserved_queue bs)) reserved_queue bs (omega arith))

  taken-Clean :
      (w : QueuedLog A → ℕ) (ls : List (ProducerLane A))
      → Clean ls
      → Clean (map take_queues ls) × (lanes_total w (map take_queues ls) ≡ 0)
  unfolding take_queues
  taken-Clean w [] h = (tt, refl)
  taken-Clean w (l ∷ ls) h =
      let (clean, none_held) = taken-Clean w ls h.1 in
      (
        (tt, clean),
        omega
            (arith, none_held, queues_total-IsEmpty w _ (spare_or_new-IsEmpty l.worker_spare h.0)),
      )

  recycle_all-Clean :
      (w : QueuedLog A → ℕ) (ls : List (ProducerLane A)) (bs : List (LaneQueues A))
      → Clean ls
      → All IsEmpty bs
      → Clean (recycle_all (map take_queues ls) bs)
        × (lanes_total w (recycle_all (map take_queues ls) bs) ≡ 0)
  unfolding recycle_all recycle take_queues
  recycle_all-Clean w [] bs h e = (tt, refl)
  recycle_all-Clean w (l ∷ ls) [] h e = taken-Clean w (l ∷ ls) h
  recycle_all-Clean w (l ∷ ls) (b ∷ bs) h e =
      let (clean, none_held) = recycle_all-Clean w ls bs h.1 e.1 in
      (
        (e.0, clean),
        omega
            (arith, none_held, queues_total-IsEmpty w _ (spare_or_new-IsEmpty l.worker_spare h.0)),
      )

  batches_total-IsEmpty :
      (w : QueuedLog A → ℕ) (bs : List (LaneQueues A)) → All IsEmpty bs → batches_total w bs ≡ 0
  batches_total-IsEmpty w [] h = refl
  batches_total-IsEmpty w (b ∷ bs) h =
      omega (arith, queues_total-IsEmpty w b h.0, batches_total-IsEmpty w bs h.1)

  drain_lanes-held :
      (w : QueuedLog A → ℕ) (ls : List (ProducerLane A)) (input : WorkerInput A)
      → Clean ls
      → let (after, filled) = drain_lanes ls input in
        Clean after
        × (lanes_total w after ≡ 0)
        × (total w filled.reserved + total w filled.normal
            ≡ lanes_total w ls + (total w input.reserved + total w input.normal))
  unfolding drain_lanes
  drain_lanes-held w ls input h =
      let bs = map (λ l. l.queues) ls in
      let (r, after) = drain_batches reserved_queue bs in
      let (n, last) = drain_batches normal_queue after in
      let (clean, none_held) = recycle_all-Clean w ls last h (drained-IsEmpty bs) in
      (
        clean,
        none_held,
        omega (
          arith,
          total-append w input.reserved r,
          total-append w input.normal n,
          lanes_total-queues w ls,
          held-drain_batches w reserved_queue bs,
          held-drain_batches w normal_queue after,
          batches_total-IsEmpty w last (drained-IsEmpty bs),
        ),
      )

  Clean-append : (xs ys : List (ProducerLane A)) → Clean xs → Clean ys → Clean (xs ++ ys)
  Clean-append xs ys = All-append (λ lane. SpareEmpty lane.worker_spare) xs ys

  Clean-take-drop :
      (n : ℕ) (xs : List (ProducerLane A)) → Clean xs → Clean (take n xs) × Clean (drop n xs)
  Clean-take-drop zero xs h = (tt, h)
  Clean-take-drop (suc n) [] h = (tt, tt)
  Clean-take-drop (suc n) (x ∷ xs) h = let (t, d) = Clean-take-drop n xs h.1 in ((h.0, t), d)

  Clean-rotate : (n : ℕ) (xs : List (ProducerLane A)) → Clean xs → Clean (rotate n xs)
  Clean-rotate n xs h =
      let (t, d) = Clean-take-drop n xs h in Clean-append (drop n xs) (take n xs) d t

  Clean-retain : (ls : List (ProducerLane A)) → Clean ls → Clean (retain ls)
  unfolding retain
  Clean-retain [] h = tt
  Clean-retain (l ∷ ls) h = elim (Bool-cases (is_closed_and_empty l)) [
    | inl e ↦ rw e (Clean-retain ls h.1)
    | inr e ↦ rw e (h.0, Clean-retain ls h.1)
  ]

  pub Clean-push_to :
      (thread : ℕ) (x : QueuedLog A) (ls : List (ProducerLane A))
      → Clean ls
      → Clean (push_to thread x ls)
  unfolding push_to push
  Clean-push_to thread x [] h = tt
  Clean-push_to thread x (l ∷ ls) h = elim (Bool-cases (l.producer == thread)) [
    | inl e ↦ rw e (h.0, h.1)
    | inr e ↦ rw e (h.0, Clean-push_to thread x ls h.1)
  ]

  pub Clean-new_lane :
      (thread : ℕ) (ls : List (ProducerLane A)) → Clean ls → Clean (ls ++ new_lane thread ∷ [])
  Clean-new_lane thread ls h = Clean-append ls (new_lane thread ∷ []) h (tt, tt)

  pub close_lane-held :
      (w : QueuedLog A → ℕ) (thread : ℕ) (ls : List (ProducerLane A))
      → Clean ls
      → Clean (close_lane thread ls) × (lanes_total w (close_lane thread ls) ≡ lanes_total w ls)
  unfolding close_lane
  close_lane-held w thread [] h = (tt, refl)
  close_lane-held w thread (l ∷ ls) h =
      let (clean, same) = close_lane-held w thread ls h.1 in
      elim (Bool-cases (l.producer == thread)) [
        | inl e ↦ rw e ((h.0, clean), omega (arith, same))
        | inr e ↦ rw e ((h.0, clean), omega (arith, same))
      ]

  -- Draining moves all records of the lanes to the inbox, whatever is measured of them.
  pub drain_into-held :
      (w : QueuedLog A → ℕ) (c : LogCollector A) (input : WorkerInput A)
      → Clean c.lanes
      → let (after, filled) = drain_into c input in
        Clean after.lanes × (lanes_total w after.lanes ≡ 0) × (held w after filled ≡ held w c input)
  unfolding drain_into drain_from
  drain_into-held w c input h = elim (Bool-cases (is_nil (retain c.lanes))) [
    | inl e ↦ rw e (
      tt,
      refl,
      omega (arith, lanes_total-retain w c.lanes, ap (lanes_total w) (no_lanes (retain c.lanes) e)),
    )
    | inr e ↦
        let lanes = retain c.lanes in
        let start = c.cursor % length lanes in
        let (clean, none_held, moved) =
          drain_lanes-held w (rotate start lanes) input
            (Clean-rotate start lanes (Clean-retain c.lanes h)) in
        let drained = (drain_lanes (rotate start lanes) input).0 in
        let back = length drained - start in
        rw e (
          Clean-rotate back drained clean,
          omega (arith, lanes_total-rotate w back drained, none_held),
          omega (
            arith,
            lanes_total-rotate w back drained,
            none_held,
            moved,
            lanes_total-rotate w start lanes,
            lanes_total-retain w c.lanes,
          ),
        )
  ]
    where
      no_lanes : (ls : List (ProducerLane A)) → is_nil ls ≡ true → ls ≡ []
      no_lanes [] q = refl
      no_lanes (l ∷ ls) q = ground arith
