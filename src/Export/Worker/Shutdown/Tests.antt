-- ===== src/Export/Worker/Shutdown/Tests.antt =====
-- A terminal failure at concrete records.
use eden_logger.Export.Claim.{Limits}
use eden_logger.Export.Shared.{
  new_shared, default_metrics, stopped, status_from_u8, remaining_records,
}
use eden_logger.Export.Collector.{LogCollector, new_collector, new_input}
use eden_logger.Export.Collector.Accounting.{here, collector_accounts}
use eden_logger.Export.Collector.Accounting.Operations.{IsCounted}
use eden_logger.Export.Collector.Accounting.Lanes.{held}
use eden_logger.Export.Worker.Batch.{MappedLog}
use eden_logger.Export.Worker.Shutdown.{retained_count, finish_terminal}
use eden_logger.Export.Worker.Shutdown.Report.{once, finish_terminal_lem}
use eden_logger.Base.{ℕ, ◌≡◌, [], ◌∷◌, arith}

abbrev small_limits : Limits
small_limits = record { capacity = 2; byte_capacity = 100 }

abbrev fresh_collector : LogCollector ℕ
fresh_collector = new_collector small_limits small_limits (new_shared 60)

fresh-IsCounted : IsCounted (fresh_collector, new_input)
fresh-IsCounted =
    collector_accounts small_limits small_limits 60 (omega arith, omega arith)
      (omega arith, omega arith) here

abbrev failed_record : MappedLog ℕ
failed_record = record { ticket = 1; log_record = 5 }

abbrev waiting_record : MappedLog ℕ
waiting_record = record { ticket = 2; log_record = 6 }

-- One record was retained and one waits: the report counts one.
finish_terminal_lem_example :
    let (report, after, rest) =
      finish_terminal ((failed_record ∷ []) ∷ []) (waiting_record ∷ []) fresh_collector new_input in
    (report.remaining_records ≡ 1)
    × (after.shared.metrics.dropped_shutdown ≡ 1)
    × (held once after rest ≡ 0)
    × (remaining_records after.shared ≡ 0)
    × (status_from_u8 after.shared.metrics.status ≡ stopped)
unfolding retained_count new_collector new_shared default_metrics
finish_terminal_lem_example =
    finish_terminal_lem ((failed_record ∷ []) ∷ []) (waiting_record ∷ []) fresh_collector new_input
      fresh-IsCounted (omega arith)
