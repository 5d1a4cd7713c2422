-- ===== src/Export/Collector/Tests.antt =====
-- The collector at concrete records.
use eden_logger.Export.Shared.{new_shared}
use eden_logger.Export.Claim.{Limits}
use eden_logger.Export.Collector.{
  normal_queue, QueuedLog, LaneQueues, LogCollector, new_collector, new_input, submit,
}
use eden_logger.Export.Collector.Drain.{source, waiting, drain_batches, drain_into}
use eden_logger.Export.Collector.Order.{select, drain_batches-order}
use eden_logger.Export.Collector.Accounting.{submits, refreshes, here, next, collector_accounts}
use eden_logger.Export.Collector.Accounting.Operations.{IsCounted}
use eden_logger.Base.{ℕ, ◌≡◌, refl, Bool, true, List, [], ◌∷◌, arith, ◌==◌}

abbrev queued : ℕ → ℕ → QueuedLog ℕ
queued n ticket = record { log = n; queue = normal_queue; bytes = 10; ticket = ticket }

abbrev lane_of : List (QueuedLog ℕ) → LaneQueues ℕ
lane_of logs = record { normal = logs; reserved = [] }

-- The first lane holds the records of thread 7.
abbrev is_seven : QueuedLog ℕ → Bool
is_seven x = x.log == 7

drain_batches-order_example :
    let lanes = lane_of (queued 8 1 ∷ []) ∷ lane_of (queued 7 2 ∷ queued 7 3 ∷ []) ∷ [] in
    (select is_seven (drain_batches normal_queue lanes).0 ≡ queued 7 2 ∷ queued 7 3 ∷ [])
    × (waiting normal_queue (drain_batches normal_queue lanes).1 ≡ 0)
unfolding source
drain_batches-order_example =
    drain_batches-order normal_queue is_seven (lane_of (queued 8 1 ∷ []) ∷ []) []
      (lane_of (queued 7 2 ∷ queued 7 3 ∷ [])) (refl, tt) tt

abbrev small_limits : Limits
small_limits = record { capacity = 2; byte_capacity = 100 }

abbrev fresh_collector : LogCollector ℕ
fresh_collector = new_collector small_limits small_limits (new_shared 60)

abbrev submitted : LogCollector ℕ
submitted = (submit 7 5 40 true fresh_collector).0

collector_accounts_example : IsCounted (drain_into submitted new_input)
collector_accounts_example =
    collector_accounts small_limits small_limits 60 (omega arith, omega arith)
      (omega arith, omega arith)
      (next (next here (submits fresh_collector new_input 7 5 40 true))
        (refreshes submitted new_input))
