-- ===== src/Export/Sink/Tests.antt =====
-- The sink at concrete records.
use eden_logger.Level.{LogLevel, debug, info, warn, error, internal}
use eden_logger.Export.Config.{all_audiences}
use eden_logger.Export.Claim.{Limits}
use eden_logger.Export.Claim.Bounds.{Within}
use eden_logger.Export.Shared.{new_shared, default_metrics}
use eden_logger.Export.Collector.{
  LogCollector, normal_queue, new_input, new_collector, normal_counters, reserved_counters,
}
use eden_logger.Export.Sink.{SinkFilter, sink, sink_all}
use eden_logger.Export.Sink.Accounting.{times, outcomes, sink_accounts}
use eden_logger.Export.Sink.Admission.{IsSettled, sink_admits}
use eden_logger.Export.Sink.Outcome.{Outcome, taken, reading}
use eden_logger.Export.Collector.Accounting.{here, collector_accounts}
use eden_logger.Export.Collector.Accounting.Operations.{IsCounted, IsU64}
use eden_logger.Base.{ℕ, ◌+◌, ◌%◌, u64_mod, some, ◌≡◌, List, [], ◌∷◌, arith}

abbrev from_info : SinkFilter
from_info = record { min_level = info; audiences = all_audiences; priority_threshold = warn }

abbrev one_slot : Limits
one_slot = record { capacity = 1; byte_capacity = 100 }

-- A record is its level, and takes ten bytes.
abbrev fresh_collector : LogCollector LogLevel
fresh_collector = new_collector one_slot one_slot (new_shared 60)

abbrev calls : List (ℕ × ℕ × LogLevel)
calls = (1, 7, info) ∷ (2, 7, debug) ∷ (3, 8, warn) ∷ (4, 7, error) ∷ []

one_slot-IsU64 : IsU64 one_slot
one_slot-IsU64 = (omega arith, omega arith)

-- Taken, filtered out, taken by the reserved queue, and dropped.
sink_accounts_example :
    let after = sink_all (λ l. l) (λ l. internal) (λ l. 10) from_info calls fresh_collector in
    ((o : Outcome)
      → reading o after.shared % u64_mod
        ≡ (reading o fresh_collector.shared
            + times o (outcomes (λ l. l) (λ l. internal) (λ l. 10) from_info calls fresh_collector))
          % u64_mod)
    × IsCounted (after, new_input)
sink_accounts_example =
    sink_accounts (λ l. l) (λ l. internal) (λ l. 10) from_info calls fresh_collector new_input
      (collector_accounts one_slot one_slot 60 one_slot-IsU64 one_slot-IsU64 here)

fresh-Within : Within (normal_counters fresh_collector.shared) fresh_collector.normal_limits
unfolding new_collector new_shared default_metrics normal_counters
fresh-Within = record {
  depth_le = omega arith;
  byte_depth_le = omega arith;
  capacity_le = omega arith;
  byte_capacity_le = omega arith;
}

fresh-Within_reserved :
    Within (reserved_counters fresh_collector.shared) fresh_collector.reserved_limits
unfolding new_collector new_shared default_metrics reserved_counters
fresh-Within_reserved = record {
  depth_le = omega arith;
  byte_depth_le = omega arith;
  capacity_le = omega arith;
  byte_capacity_le = omega arith;
}

-- A warning goes to the normal queue while that has room.
sink_admits_example :
    IsSettled taken
      (some normal_queue)
      7
      warn
      10
      fresh_collector
      (sink (λ l. l) (λ l. internal) (λ l. 10) from_info 1 7 warn fresh_collector)
unfolding new_collector new_shared default_metrics normal_counters
sink_admits_example =
    sink_admits (λ l. l) (λ l. internal) (λ l. 10) from_info 1 7 warn fresh_collector fresh-Within
      fresh-Within_reserved
