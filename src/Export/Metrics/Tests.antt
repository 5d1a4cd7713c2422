-- ===== src/Export/Metrics/Tests.antt =====
-- Snapshots at concrete counters.
use eden_logger.Export.Shared.{default_metrics, stopped, status_code, ExporterMetrics}
use eden_logger.Export.Metrics.{snapshot, dropped_total, dropped_total_lem, snapshot-status}
use eden_logger.Base.{◌≡◌, refl}

abbrev some_drops : ExporterMetrics
some_drops = record default_metrics {
  dropped_queue_full = 3;
  dropped_shutdown = 4;
  status = status_code stopped;
}

dropped_total_lem_example : dropped_total (snapshot some_drops 10) ≡ 7
unfolding snapshot default_metrics
dropped_total_lem_example = dropped_total_lem (snapshot some_drops 10)

snapshot-status_example : (snapshot some_drops 10).status ≡ stopped
snapshot-status_example = snapshot-status some_drops 10 stopped refl
