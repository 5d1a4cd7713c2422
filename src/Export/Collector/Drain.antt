-- ===== src/Export/Collector/Drain.antt =====
-- `drain_batches` and `LogCollector::drain_into` of
-- crates/eden_logger_export/src/collector.rs, with `try_receive` and `WorkerInput::refresh` of
-- worker.rs.
use eden_logger.Export.Shared.{Shared, with_metrics}
use eden_logger.Export.Collector.{
  QueueKind, normal_queue, reserved_queue, QueuedLog, LaneQueues, ProducerLane, LogCollector,
  WorkerInput, is_closed_and_empty, take_queues, recycle, release_slot, pop_front,
}
use eden_logger.Base.{
  ℕ, zero, suc, ◌+◌, ◌-◌, ◌%◌, ◌&&◌, Option, none, some, List, [], ◌∷◌, ◌++◌, map, if◌then◌else◌,
  is_nil, length, take, drop, wrap_sub,
}

-- `DRAIN_QUANTUM`
abbrev pub drain_quantum : ℕ
drain_quantum = 64

-- A rotation of a list to the left.
abbrev pub rotate {ℓ} : {A : Type ℓ} → ℕ → List A → List A
rotate n xs = drop n xs ++ take n xs

unfoldable pub forget_lanes : ℕ → Shared → Shared
forget_lanes removed s =
    let m = s.metrics in
    with_metrics s (record m { producer_lanes = wrap_sub m.producer_lanes removed })

module _ {ℓ} {A : Type ℓ} where
  unfoldable pub source : QueueKind → LaneQueues A → List (QueuedLog A)
  source normal_queue batch = batch.normal
  source reserved_queue batch = batch.reserved

  unfoldable pub with_source : QueueKind → LaneQueues A → List (QueuedLog A) → LaneQueues A
  with_source normal_queue batch logs = record batch { normal = logs }
  with_source reserved_queue batch logs = record batch { reserved = logs }

  -- One pass over the lanes: the records drained, and the lanes after it.
  unfoldable pub drain_pass :
      QueueKind → List (LaneQueues A) → List (QueuedLog A) × List (LaneQueues A)
  drain_pass kind [] = ([], [])
  drain_pass kind (batch ∷ batches) =
      let (drained, rest) = drain_pass kind batches in
      (
        take drain_quantum (source kind batch) ++ drained,
        with_source kind batch (drop drain_quantum (source kind batch)) ∷ rest,
      )

  -- The `loop`, on fuel.
  unfoldable pub drain_passes :
      ℕ → QueueKind → List (LaneQueues A) → List (QueuedLog A) × List (LaneQueues A)
  drain_passes zero kind batches = ([], batches)
  drain_passes (suc fuel) kind batches =
      let (drained, rest) = drain_pass kind batches in
      let (more, last) = drain_passes fuel kind rest in
      if is_nil drained then ([], rest) else (drained ++ more, last)

  abbrev pub waiting : QueueKind → List (LaneQueues A) → ℕ
  waiting kind [] = 0
  waiting kind (batch ∷ batches) = length (source kind batch) + waiting kind batches

  -- Each pass but the last drains a record, so one more pass than there are records is enough.
  unfoldable pub drain_batches :
      QueueKind → List (LaneQueues A) → List (QueuedLog A) × List (LaneQueues A)
  drain_batches kind batches = drain_passes (suc (waiting kind batches)) kind batches

  unfoldable pub retain : List (ProducerLane A) → List (ProducerLane A)
  retain [] = []
  retain (lane ∷ lanes) = if is_closed_and_empty lane then retain lanes else lane ∷ retain lanes

  unfoldable pub recycle_all : List (ProducerLane A) → List (LaneQueues A) → List (ProducerLane A)
  recycle_all [] batches = []
  recycle_all (lane ∷ lanes) [] = lane ∷ lanes
  recycle_all (lane ∷ lanes) (batch ∷ batches) = recycle lane batch ∷ recycle_all lanes batches

  -- The lanes in the order of this pass: what they drain and what becomes of them.
  unfoldable pub drain_lanes :
      List (ProducerLane A) → WorkerInput A → List (ProducerLane A) × WorkerInput A
  drain_lanes ordered input =
      let (reserved, batches) = drain_batches reserved_queue (map (λ lane. lane.queues) ordered) in
      let (normal, rest) = drain_batches normal_queue batches in
      (
        recycle_all (map take_queues ordered) rest,
        record { reserved = input.reserved ++ reserved; normal = input.normal ++ normal },
      )

  -- With the lanes that are left, at least one of them, and the cursor modulo their number.
  unfoldable pub drain_from :
      LogCollector A → List (ProducerLane A) → ℕ → WorkerInput A → LogCollector A × WorkerInput A
  drain_from c lanes start input =
      let (drained, filled) = drain_lanes (rotate start lanes) input in
      (
        record c {
          lanes = rotate (length drained - start) drained;
          cursor = (start + 1) % length lanes;
          shared = forget_lanes (length c.lanes - length lanes) c.shared;
        },
        filled,
      )

  unfoldable pub drain_into : LogCollector A → WorkerInput A → LogCollector A × WorkerInput A
  drain_into c input =
      let lanes = retain c.lanes in
      if is_nil lanes
      then (
        record c { lanes = []; cursor = 0; shared = forget_lanes (length c.lanes) c.shared },
        input,
      )
      else drain_from c lanes (c.cursor % length lanes) input

  -- `WorkerInput::refresh`, where `try_receive` calls it
  unfoldable pub refresh_empty : LogCollector A → WorkerInput A → LogCollector A × WorkerInput A
  refresh_empty c input =
      if is_nil input.reserved && is_nil input.normal then drain_into c input else (c, input)

  unfoldable pub release_popped :
      LogCollector A
      → WorkerInput A
      → Option (QueuedLog A × WorkerInput A)
      → Option (QueuedLog A) × LogCollector A × WorkerInput A
  release_popped c input none = (none, c, input)
  release_popped c input (some (queued, rest)) =
      (some queued, record c { shared = release_slot queued.queue queued.bytes c.shared }, rest)

  unfoldable pub try_receive :
      LogCollector A → WorkerInput A → Option (QueuedLog A) × LogCollector A × WorkerInput A
  try_receive c input =
      let (filled, now) = refresh_empty c input in release_popped filled now (pop_front now)
