-- ===== src/Counters/Tests.antt =====
-- The counters with a concrete set: a function from the indices.
use eden_logger.Base.{◌+◌, ◌≡◌, [], ◌∷◌, length}
use eden_logger.Level.{
  LogLevel, trace, debug, info, warn, error, LogAudience, internal, client, both,
}
use eden_logger.Counters.{log_metrics_snapshot}
use eden_logger.Counters.Plain.{plain_set, plain_set-IsCounterSet}
use eden_logger.Counters.Totals.{
  Emitted, record_all, count_level, count_audience, log_metrics_snapshot-record_all,
}

abbrev emitted : Emitted
emitted = (warn, client) ∷ (info, internal) ∷ []

log_metrics_snapshot-record_all_example :
    let s = log_metrics_snapshot plain_set (record_all plain_set emitted) in
    (s.emitted_total ≡ length emitted)
    × ((l : LogLevel) → s.by_level l ≡ count_level l emitted)
    × ((a : LogAudience) → s.by_audience a ≡ count_audience a emitted)
    × (s.emitted_total
        ≡ s.by_level trace
          + s.by_level debug
          + s.by_level info
          + s.by_level warn
          + s.by_level error)
    × (s.emitted_total ≡ s.by_audience internal + s.by_audience client + s.by_audience both)
log_metrics_snapshot-record_all_example =
    log_metrics_snapshot-record_all plain_set plain_set-IsCounterSet emitted
