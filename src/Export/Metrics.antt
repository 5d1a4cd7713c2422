-- ===== src/Export/Metrics.antt =====
-- `ExporterMetricsSnapshot` of crates/eden_logger_export/src/metrics.rs: the reading of the
-- counters, their sum and their report to a metrics visitor.
pub mod Visit
mod Tests
use eden_logger.Export.Shared.{
  ExporterStatus, running, backing_off, terminal_failure, shutting_down, stopped, status_code,
  status_from_u8, ExporterMetrics, Shared,
}
use eden_logger.Base.{
  ℕ, zero, suc, ◌+◌, ◌-◌, ◌*◌, ◌/◌, ◌%◌, ◌^◌, ◌≤◌, ◌<◌, min, max, bit_and, bit_or, ◌≡◌, refl, sym,
  ap, ◌∙◌, subst, ◌≢◌, ◌↔◌, ◌⊎◌, inl, inr, Bool, true, false, ◌&&◌, ◌||◌, not, Option, none, some,
  List, [], ◌∷◌, ◌++◌, map, append-nil, append_assoc, arith, ltb, leb, ◌==◌, if◌then◌else◌, ltb→lt,
  lt→ltb, leb→le, ==_iff, Bool-cases, Option-cases, ◌>>=◌, or_else, is_some, is_nil, length, take,
  drop, length-append, take-append-drop, length-take, length-drop, any, all, All, All-append,
  u64_mod, u64_max, u128_max, sat_add, sat_mul, wrap_add, wrap_sub, Text, codes, text_eq,
  text_eq_iff,
}

pub record ExporterMetricsSnapshot : Type 0 where
  pub accepted : ℕ
  pub counters : ExporterMetrics
  pub status : ExporterStatus

-- `ExporterMetrics::snapshot`; the fields that only copy a counter are the counters themselves.
unfoldable pub snapshot : ExporterMetrics → ℕ → ExporterMetricsSnapshot
snapshot m accepted = record { accepted = accepted; counters = m; status = status_from_u8 m.status }

-- `Shared::metrics_snapshot`
unfoldable pub metrics_snapshot : Shared → ExporterMetricsSnapshot
metrics_snapshot s = snapshot s.metrics s.next_ticket

unfoldable pub dropped_total : ExporterMetricsSnapshot → ℕ
dropped_total s =
    sat_add
      (sat_add
        (sat_add (sat_add s.counters.dropped_queue_full s.counters.dropped_queue_bytes_full)
          s.counters.dropped_stopped)
        s.counters.dropped_oversize)
      s.counters.dropped_shutdown

abbrev pub i64_max : ℕ
i64_max = 0x7FFF_FFFF_FFFF_FFFF

unfoldable pub as_i64 : ℕ → ℕ
as_i64 value = if ltb i64_max value then i64_max else value

-- The total of dropped records is the sum of the five reasons, or u64::MAX if that is smaller.
pub dropped_total_lem :
    (s : ExporterMetricsSnapshot)
    → let m = s.counters in
      dropped_total s
      ≡ min
          (m.dropped_queue_full + m.dropped_queue_bytes_full + m.dropped_stopped
            + m.dropped_oversize + m.dropped_shutdown)
          u64_max
unfolding dropped_total
dropped_total_lem s = omega arith

-- Every status is read back from the number that stands for it, and a snapshot shows it.
pub snapshot-status :
    (m : ExporterMetrics) (accepted : ℕ) (s : ExporterStatus)
    → m.status ≡ status_code s
    → (snapshot m accepted).status ≡ s
unfolding snapshot status_from_u8
snapshot-status m accepted running e = rw e refl
snapshot-status m accepted backing_off e = rw e refl
snapshot-status m accepted terminal_failure e = rw e refl
snapshot-status m accepted shutting_down e = rw e refl
snapshot-status m accepted stopped e = rw e refl
