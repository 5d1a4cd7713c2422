-- ===== src/Export/Metrics/Visit.antt =====
-- `visit_exporter_metrics` of crates/eden_logger_export/src/metrics.rs: what a metrics visitor, of
-- another package, is called with.
mod Tests
use eden_logger.Export.Shared.{status_as_str, ExporterMetrics}
use eden_logger.Export.Metrics.{ExporterMetricsSnapshot, dropped_total, as_i64, i64_max}
use eden_logger.Base.{
  ℕ, zero, suc, ◌+◌, ◌-◌, ◌*◌, ◌/◌, ◌%◌, ◌^◌, ◌≤◌, ◌<◌, min, max, bit_and, bit_or, ◌≡◌, refl, sym,
  ap, ◌∙◌, subst, ◌≢◌, ◌↔◌, ◌⊎◌, inl, inr, Bool, true, false, ◌&&◌, ◌||◌, not, Option, none, some,
  List, [], ◌∷◌, ◌++◌, map, append-nil, append_assoc, arith, ltb, leb, ◌==◌, if◌then◌else◌, ltb→lt,
  lt→ltb, leb→le, ==_iff, Bool-cases, Option-cases, ◌>>=◌, or_else, is_some, is_nil, length, take,
  drop, length-append, take-append-drop, length-take, length-drop, any, all, All, All-append,
  u64_mod, u64_max, u128_max, sat_add, sat_mul, wrap_add, wrap_sub, Text, codes, text_eq,
  text_eq_iff,
}

pub data MetricKind : Type 0 where
  counter gauge : MetricKind

pub record MetricMeta : Type 0 where
  pub name : Text
  pub help : Text
  pub kind : MetricKind
  pub unit : Option Text

unfoldable pub accepted_meta : MetricMeta
accepted_meta = record {
  name = codes "eden_logger_export.logs_accepted_total";
  help = codes "Log records accepted into the in-memory exporter queues.";
  kind = counter;
  unit = some (codes "logs");
}

unfoldable pub filtered_meta : MetricMeta
filtered_meta = record {
  name = codes "eden_logger_export.logs_filtered_total";
  help = codes "Log records excluded by exporter severity or audience filters.";
  kind = counter;
  unit = some (codes "logs");
}

unfoldable pub dropped_meta : MetricMeta
dropped_meta = record {
  name = codes "eden_logger_export.logs_dropped_total";
  help = codes "Log records dropped by the bounded direct exporter.";
  kind = counter;
  unit = some (codes "logs");
}

unfoldable pub exported_meta : MetricMeta
exported_meta = record {
  name = codes "eden_logger_export.logs_exported_total";
  help = codes "Log records acknowledged by the OTLP collector.";
  kind = counter;
  unit = some (codes "logs");
}

unfoldable pub rejected_meta : MetricMeta
rejected_meta = record {
  name = codes "eden_logger_export.logs_rejected_total";
  help = codes "Log records rejected by the collector or invalid-payload isolation.";
  kind = counter;
  unit = some (codes "logs");
}

unfoldable pub attempts_meta : MetricMeta
attempts_meta = record {
  name = codes "eden_logger_export.export_attempts_total";
  help = codes "OTLP export requests attempted.";
  kind = counter;
  unit = some (codes "requests");
}

unfoldable pub retries_meta : MetricMeta
retries_meta = record {
  name = codes "eden_logger_export.export_retries_total";
  help = codes "OTLP export requests retried after transient failures.";
  kind = counter;
  unit = some (codes "requests");
}

unfoldable pub partial_meta : MetricMeta
partial_meta = record {
  name = codes "eden_logger_export.partial_rejections_total";
  help = codes "OTLP batches that received a partial-success response.";
  kind = counter;
  unit = some (codes "batches");
}

unfoldable pub batches_meta : MetricMeta
batches_meta = record {
  name = codes "eden_logger_export.batches_exported_total";
  help = codes "OTLP log batches acknowledged, including partial success.";
  kind = counter;
  unit = some (codes "batches");
}

unfoldable pub queue_depth_meta : MetricMeta
queue_depth_meta = record {
  name = codes "eden_logger_export.queue_depth";
  help = codes "Current records held in an exporter queue.";
  kind = gauge;
  unit = some (codes "logs");
}

unfoldable pub queue_bytes_meta : MetricMeta
queue_bytes_meta = record {
  name = codes "eden_logger_export.queue_bytes";
  help = codes "Estimated retained bytes held in an exporter queue.";
  kind = gauge;
  unit = some (codes "By");
}

unfoldable pub inflight_meta : MetricMeta
inflight_meta = record {
  name = codes "eden_logger_export.inflight_records";
  help = codes "Current records in the batch being exported.";
  kind = gauge;
  unit = some (codes "logs");
}

unfoldable pub status_meta : MetricMeta
status_meta = record {
  name = codes "eden_logger_export.exporter_state";
  help = codes "Current OTLP log exporter lifecycle state.";
  kind = gauge;
  unit = none;
}

unfoldable pub producer_lanes_meta : MetricMeta
producer_lanes_meta = record {
  name = codes "eden_logger_export.producer_lanes";
  help = codes "Current thread-local producer lanes registered with the exporter.";
  kind = gauge;
  unit = some (codes "lanes");
}

-- One call of the visitor: the metric, its label and its value.
pub record Sample : Type 0 where
  pub meta : MetricMeta
  pub label : Option (Text × Text)
  pub value : ℕ

abbrev plain : MetricMeta → ℕ → Sample
plain meta value = record { meta = meta; label = none; value = as_i64 value }

abbrev labelled : MetricMeta → Text → Text → ℕ → Sample
labelled meta key name value = record {
  meta = meta;
  label = some (key, name);
  value = as_i64 value;
}

unfoldable pub visit_dropped : ExporterMetrics → List Sample
visit_dropped m =
    labelled dropped_meta (codes "reason") (codes "queue_full") m.dropped_queue_full
    ∷ labelled dropped_meta (codes "reason") (codes "queue_bytes_full") m.dropped_queue_bytes_full
    ∷ labelled dropped_meta (codes "reason") (codes "stopped") m.dropped_stopped
    ∷ labelled dropped_meta (codes "reason") (codes "oversize") m.dropped_oversize
    ∷ labelled dropped_meta (codes "reason") (codes "shutdown") m.dropped_shutdown
    ∷ []

unfoldable pub visit_exporter_metrics : ExporterMetricsSnapshot → List Sample
visit_exporter_metrics s =
    let m = s.counters in
    plain accepted_meta s.accepted
    ∷ plain filtered_meta m.filtered
    ∷ plain exported_meta m.exported
    ∷ plain rejected_meta m.rejected
    ∷ plain attempts_meta m.export_attempts
    ∷ plain retries_meta m.retries
    ∷ plain partial_meta m.partial_rejections
    ∷ plain batches_meta m.batches
    ∷ (visit_dropped m
        ++ labelled queue_depth_meta (codes "queue") (codes "normal") m.normal_queue_depth
          ∷ labelled queue_depth_meta (codes "queue") (codes "reserved") m.reserved_queue_depth
          ∷ labelled queue_bytes_meta (codes "queue") (codes "normal") m.normal_queue_bytes
          ∷ labelled queue_bytes_meta (codes "queue") (codes "reserved") m.reserved_queue_bytes
          ∷ plain inflight_meta m.inflight
          ∷ plain producer_lanes_meta m.producer_lanes
          ∷ labelled status_meta (codes "state") (status_as_str s.status) 1
          ∷ [])

-- The sum of the samples of one metric.
abbrev pub reported : Text → List Sample → ℕ
reported name [] = 0
reported name (x ∷ xs) =
    let rest = reported name xs in if text_eq x.meta.name name then x.value + rest else rest

-- If fewer than 2^63 records were dropped in all, the samples of the dropped-records metric add up
-- to the total of dropped records, and no other sample has that metric's name.
pub visit_exporter_metrics-dropped_total :
    (s : ExporterMetricsSnapshot)
    → dropped_total s ≤ i64_max
    → reported (codes "eden_logger_export.logs_dropped_total") (visit_exporter_metrics s)
      ≡ dropped_total s
unfolding text_eq visit_exporter_metrics visit_dropped dropped_total as_i64 accepted_meta
    filtered_meta dropped_meta exported_meta rejected_meta attempts_meta retries_meta partial_meta
    batches_meta queue_depth_meta queue_bytes_meta inflight_meta status_meta producer_lanes_meta
visit_exporter_metrics-dropped_total s small = ground arith
