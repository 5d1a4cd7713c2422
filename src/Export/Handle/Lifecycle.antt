-- ===== src/Export/Handle/Lifecycle.antt =====
-- How a generation of the exporter ends.
use eden_logger.Export.Shared.{
  stopped, status_from_u8, Shared, set_status, set_last_error, stop_acceptance, remaining_records,
  reset_live_metrics,
}
use eden_logger.Export.Metrics.{metrics_snapshot}
use eden_logger.Export.Collector.{
  LogCollector, WorkerInput, normal_queue, reserved_queue, normal_counters, reserved_counters,
}
use eden_logger.Export.Collector.Accounting.Operations.{IsCounted, in_queue}
use eden_logger.Export.Collector.Accounting.Lanes.{held}
use eden_logger.Export.Handle.{
  ShutdownReport, no_worker, joined, deadline_elapsed, join_error, count_shutdown, abandon,
  drain_generation,
}
use eden_logger.Base.{
  ℕ, ◌+◌, min, u64_max, ◌≡◌, refl, ap, ◌∙◌, Bool, true, false, arith, wrap_add, Text,
}

-- Neither queue holds a record or a byte, none is in flight, no record is accepted, and the status is
-- the final one.
pub record IsOver (s : Shared) : Type 0 where
  pub closed : s.accepting ≡ false
  pub final : status_from_u8 s.metrics.status ≡ stopped
  pub no_normal : s.metrics.normal_queue_depth ≡ 0
  pub no_normal_bytes : s.metrics.normal_queue_bytes ≡ 0
  pub no_reserved : s.metrics.reserved_queue_depth ≡ 0
  pub no_reserved_bytes : s.metrics.reserved_queue_bytes ≡ 0
  pub none_inflight : s.metrics.inflight ≡ 0

-- A drain reports `n` records left and counts them as dropped at shutdown.
pub record IsAbandoned (late : Bool) (n : ℕ) (s : Shared) (report : ShutdownReport) (after : Shared)
    : Type 0 where
  pub timed_out : report.timed_out ≡ late
  pub remaining : report.remaining_records ≡ n
  pub shown : report.metrics ≡ metrics_snapshot after
  pub dropped : after.metrics.dropped_shutdown ≡ wrap_add s.metrics.dropped_shutdown n
  pub over : IsOver after

-- A drain without a worker reports `n` records left, and leaves them and the counters.
pub record IsLeft (n : ℕ) (s : Shared) (report : ShutdownReport) (after : Shared) : Type 0 where
  pub timed_out : report.timed_out ≡ false
  pub remaining : report.remaining_records ≡ n
  pub shown : report.metrics ≡ metrics_snapshot after
  pub dropped : after.metrics.dropped_shutdown ≡ s.metrics.dropped_shutdown
  pub closed : after.accepting ≡ false

abandon_lem :
    (late : Bool) (n : ℕ) (s t : Shared)
    → (t.accepting ≡ false)
      × (remaining_records t ≡ n)
      × (t.metrics.dropped_shutdown ≡ s.metrics.dropped_shutdown)
    → let (report, after) = abandon late t in IsAbandoned late n s report after
unfolding abandon
abandon_lem late n s t (a, b, c) =
    unfold count_shutdown reset_live_metrics set_status status_from_u8 in
    record {
      timed_out = refl;
      remaining = b;
      shown = refl;
      dropped =
          ap (λ m. wrap_add m (remaining_records t)) c ∙ ap (wrap_add s.metrics.dropped_shutdown) b;
      over = record {
        closed = a;
        final = refl;
        no_normal = refl;
        no_normal_bytes = refl;
        no_reserved = refl;
        no_reserved_bytes = refl;
        none_inflight = refl;
      };
    }

pub stop_acceptance-kept :
    (s : Shared)
    → ((stop_acceptance s).accepting ≡ false)
      × (remaining_records (stop_acceptance s) ≡ remaining_records s)
      × ((stop_acceptance s).metrics.dropped_shutdown ≡ s.metrics.dropped_shutdown)
unfolding stop_acceptance set_status remaining_records
stop_acceptance-kept s = (ground arith, ground arith, ground arith)

set_last_error-kept :
    (message : Text) (n : ℕ) (s t : Shared)
    → (t.accepting ≡ false)
      × (remaining_records t ≡ n)
      × (t.metrics.dropped_shutdown ≡ s.metrics.dropped_shutdown)
    → let u = set_last_error message t in
      (u.accepting ≡ false)
      × (remaining_records u ≡ n)
      × (u.metrics.dropped_shutdown ≡ s.metrics.dropped_shutdown)
unfolding set_last_error remaining_records
set_last_error-kept message n s t h = h

module _ {ℓ} {A : Type ℓ} where
  -- The records that the queues of the collector and the worker's inbox hold, and those in flight,
  -- up to the greatest number of 64 bits.
  abbrev pub records_left : LogCollector A → WorkerInput A → ℕ
  records_left c input =
      min
        (held (in_queue normal_queue) c input
          + held (in_queue reserved_queue) c input
          + c.shared.metrics.inflight)
        u64_max

  remaining_records-held :
      (c : LogCollector A) (input : WorkerInput A)
      → IsCounted (c, input)
      → remaining_records c.shared ≡ records_left c input
  unfolding remaining_records normal_counters reserved_counters
  remaining_records-held c input v =
      omega (arith, v.balanced.counted normal_queue, v.balanced.counted reserved_queue)

  -- From gauges that show what the lanes and the worker's inbox hold: when the worker fails, or has
  -- not ended at the deadline and is aborted, the drain reports the records that are held or in
  -- flight, at most u64::MAX, adds as many, modulo 2^64, to those dropped at shutdown, sets the
  -- records and bytes of both queues and the records in flight to zero, and leaves no acceptance and
  -- the status stopped, which the report's metrics show. Without a worker the drain reports the same
  -- number and drops none; and the report of a worker that has ended is handed on, after which no
  -- record is accepted.
  pub drain_generation_abandons :
      (error : Text) (worker_report : ShutdownReport) (c : LogCollector A) (input : WorkerInput A)
      → IsCounted (c, input)
      → let s = c.shared in
        let n = records_left c input in
        let (failed, after_failure) = drain_generation (join_error error) s in
        let (late, after_deadline) = drain_generation deadline_elapsed s in
        let (idle, after_idle) = drain_generation no_worker s in
        let (ended, after_end) = drain_generation (joined worker_report) s in
        IsAbandoned false n s failed after_failure
        × IsAbandoned true n s late after_deadline
        × IsLeft n s idle after_idle
        × (ended ≡ worker_report)
        × (after_end.accepting ≡ false)
  unfolding drain_generation
  drain_generation_abandons error worker_report c input v =
      let s = c.shared in
      let n = records_left c input in
      let (closed, kept, dropped) = stop_acceptance-kept s in
      let left = kept ∙ remaining_records-held c input v in
      (
        abandon_lem false n s _
            (set_last_error-kept _ n s (stop_acceptance s) (closed, left, dropped)),
        abandon_lem true n s (stop_acceptance s) (closed, left, dropped),
        record {
          timed_out = refl;
          remaining = left;
          shown = refl;
          dropped = dropped;
          closed = closed;
        },
        refl,
        closed,
      )
