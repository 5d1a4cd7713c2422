-- ===== src/Export/Worker/Shutdown/Report.antt =====
-- What the report of a terminal failure counts.
use eden_logger.Export.Shared.{
  stopped, status_from_u8, set_status, remaining_records, reset_live_metrics,
}
use eden_logger.Export.Collector.{
  QueueKind, normal_queue, reserved_queue, QueuedLog, ProducerLane, LogCollector, WorkerInput,
  clear, normal_counters, reserved_counters,
}
use eden_logger.Export.Collector.Accounting.Operations.{IsCounted, in_queue}
use eden_logger.Export.Collector.Accounting.Lanes.{total, lanes_total, held}
use eden_logger.Export.Collector.Accounting.Slots.{of_kind}
use eden_logger.Export.Handle.{count_shutdown}
use eden_logger.Export.Worker.Batch.{MappedLog}
use eden_logger.Export.Worker.Shutdown.{retained_count, finish_terminal}
use eden_logger.Base.{ℕ, ◌+◌, ◌≤◌, ◌≡◌, refl, ap, List, [], ◌∷◌, arith, u64_max, sat_add, wrap_add}

one_kind : (k : QueueKind) → of_kind k 1 normal_queue + of_kind k 1 reserved_queue ≡ 1
one_kind normal_queue = refl
one_kind reserved_queue = refl

module _ {ℓ} {A : Type ℓ} where
  -- Each record counts once.
  abbrev pub once : QueuedLog A → ℕ
  once x = 1

  total-once :
      (xs : List (QueuedLog A))
      → total (in_queue normal_queue) xs + total (in_queue reserved_queue) xs ≡ total once xs
  total-once [] = omega arith
  total-once (x ∷ xs) = omega (arith, total-once xs, one_kind x.queue)

  lanes_total-once :
      (ls : List (ProducerLane A))
      → lanes_total (in_queue normal_queue) ls + lanes_total (in_queue reserved_queue) ls
        ≡ lanes_total once ls
  lanes_total-once [] = omega arith
  lanes_total-once (l ∷ ls) =
      omega (arith, lanes_total-once ls, total-once l.queues.normal, total-once l.queues.reserved)

  held-once :
      (c : LogCollector A) (input : WorkerInput A)
      → held (in_queue normal_queue) c input + held (in_queue reserved_queue) c input
        ≡ held once c input
  held-once c input =
      omega (arith, lanes_total-once c.lanes, total-once input.reserved, total-once input.normal)

module _ {ℓ κ} {A : Type ℓ} {B : Type κ} where
  -- After a terminal failure, with gauges that show what is held and fewer than 2^64 records in
  -- all, the report and the count of records dropped at shutdown take in the retained records of
  -- the failed batch and every record of the lanes and the inbox, and nothing for the records of
  -- `pending`. Nothing is held, queued or in flight any more, and the status is stopped.
  pub finish_terminal_lem :
      (retained : List (List (MappedLog B))) (pending : List (MappedLog B)) (c : LogCollector A)
      (input : WorkerInput A)
      → IsCounted (c, input)
      → retained_count retained + held once c input ≤ u64_max
      → let (report, after, rest) = finish_terminal retained pending c input in
        (report.remaining_records ≡ retained_count retained + held once c input)
        × (after.shared.metrics.dropped_shutdown
            ≡ wrap_add c.shared.metrics.dropped_shutdown
                (retained_count retained + held once c input))
        × (held once after rest ≡ 0)
        × (remaining_records after.shared ≡ 0)
        × (status_from_u8 after.shared.metrics.status ≡ stopped)
  unfolding finish_terminal count_shutdown clear set_status reset_live_metrics remaining_records
      status_from_u8
  finish_terminal_lem retained pending c input v small =
      let b = v.balanced in
      let all_held = held-once c input in
      let counted : sat_add (retained_count retained)
            (sat_add c.shared.metrics.normal_queue_depth c.shared.metrics.reserved_queue_depth)
          ≡ retained_count retained + held once c input =
        unfold normal_counters reserved_counters in
        omega (arith, small, all_held, b.counted normal_queue, b.counted reserved_queue) in
      (counted, ap (wrap_add c.shared.metrics.dropped_shutdown) counted, refl, omega arith, refl)
