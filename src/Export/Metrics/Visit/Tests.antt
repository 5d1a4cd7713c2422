-- ===== src/Export/Metrics/Visit/Tests.antt =====
-- The visitor at concrete counters.
use eden_logger.Export.Shared.{default_metrics, ExporterMetrics}
use eden_logger.Export.Metrics.{snapshot, dropped_total}
use eden_logger.Export.Metrics.Visit.{
  visit_exporter_metrics, reported, visit_exporter_metrics-dropped_total,
}
use eden_logger.Base.{◌≤◌, ◌≡◌, arith, codes}

abbrev drops : ExporterMetrics
drops = record default_metrics { dropped_queue_full = 3; dropped_stopped = 4 }

visit_exporter_metrics-dropped_total_example :
    reported
      (codes "eden_logger_export.logs_dropped_total")
      (visit_exporter_metrics (snapshot drops 10))
    ≡ dropped_total (snapshot drops 10)
visit_exporter_metrics-dropped_total_example =
    visit_exporter_metrics-dropped_total (snapshot drops 10) few
  where
    few : dropped_total (snapshot drops 10) ≤ 0x7FFF_FFFF_FFFF_FFFF
    few = unfold snapshot dropped_total default_metrics in omega arith
