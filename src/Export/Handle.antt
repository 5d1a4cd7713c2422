-- ===== src/Export/Handle.antt =====
-- `ExporterHandle`, `drain_generation`, `install_on` and their reports, of
-- crates/eden_logger_export/src/lib.rs. What the runtime decides (when a waiting call wakes, how a
-- worker ends) is a parameter.
pub mod Flush
pub mod Lifecycle
pub mod Install
mod Tests
use eden_logger.Export.Shared.{
  ExporterStatus, running, backing_off, terminal_failure, shutting_down, stopped, Shared,
  with_metrics, set_status, set_last_error, stop_acceptance, remaining_records, reset_live_metrics,
  new_shared,
}
use eden_logger.Export.Metrics.{ExporterMetricsSnapshot, metrics_snapshot}
use eden_logger.Export.Claim.{Limits}
use eden_logger.Export.Collector.{LogCollector, new_collector}
use eden_logger.Export.Config.{
  ExporterConfig, validate, InstallError, invalid_config, transport, sink_already_installed,
}
use eden_logger.Export.Sink.{SinkFilter}
use eden_logger.Registry.{Registry, Registration, Result, ok, err, register_sink}
use eden_logger.Base.{
  ℕ, zero, suc, ◌+◌, ◌-◌, ◌*◌, ◌/◌, ◌%◌, ◌^◌, ◌≤◌, ◌<◌, min, max, bit_and, bit_or, ◌≡◌, refl, sym,
  ap, ◌∙◌, subst, ◌≢◌, ◌↔◌, ◌⊎◌, inl, inr, Bool, true, false, ◌&&◌, ◌||◌, not, Option, none, some,
  List, [], ◌∷◌, ◌++◌, map, append-nil, append_assoc, arith, ltb, leb, ◌==◌, if◌then◌else◌, ltb→lt,
  lt→ltb, leb→le, ==_iff, Bool-cases, Option-cases, ◌>>=◌, or_else, is_some, is_nil, length, take,
  drop, length-append, take-append-drop, length-take, length-drop, any, all, All, All-append,
  u64_mod, u64_max, u128_max, sat_add, sat_mul, wrap_add, wrap_sub, Text, codes, text_eq,
  text_eq_iff,
}

pub data FlushStatus : Type 0 where
  flushed timed_out flush_terminal_failure flush_stopped : FlushStatus

pub record FlushReport : Type 0 where
  pub status : FlushStatus
  pub target_ticket : ℕ
  pub completed_ticket : ℕ

unfoldable pub flush_report : FlushStatus → ℕ → ℕ → FlushReport
flush_report status target completed = record {
  status = status;
  target_ticket = target;
  completed_ticket = completed;
}

-- The status that ends a flush before its target, if it is one.
unfoldable pub dead : ExporterStatus → Option FlushStatus
dead terminal_failure = some flush_terminal_failure
dead stopped = some flush_stopped
dead running = none
dead backing_off = none
dead shutting_down = none

-- The loop of `force_flush`: what each wake-up reads of `completed_ticket` and of the status, until
-- the deadline; `last` is the completed ticket then.
unfoldable pub flush_loop : ℕ → ℕ → List (ℕ × ExporterStatus) → FlushReport
flush_loop target last [] = flush_report timed_out target last
flush_loop target last ((completed, status) ∷ wakes) =
    let later = flush_loop target last wakes in
    if leb target completed
    then flush_report flushed target completed
    else elim (dead status) [ none ↦ later | some why ↦ flush_report why target completed ]

unfoldable pub force_flush : Shared → ℕ → List (ℕ × ExporterStatus) → FlushReport
force_flush s last wakes = flush_loop s.next_ticket last wakes

pub record ShutdownReport : Type 0 where
  pub timed_out : Bool
  pub remaining_records : ℕ
  pub metrics : ExporterMetricsSnapshot

-- How a drain ends: without a worker, with the worker's report, with its failure, or at the
-- deadline, when the worker is aborted.
pub data WorkerOutcome : Type 0 where
  no_worker deadline_elapsed : WorkerOutcome
  joined : ShutdownReport → WorkerOutcome
  join_error : Text → WorkerOutcome

unfoldable pub count_shutdown : ℕ → Shared → Shared
count_shutdown n s =
    let m = s.metrics in
    with_metrics s (record m { dropped_shutdown = wrap_add m.dropped_shutdown n })

-- The arms of `drain_generation` without a report of the worker.
unfoldable pub abandon : Bool → Shared → ShutdownReport × Shared
abandon late s =
    let remaining = remaining_records s in
    let after = set_status stopped (reset_live_metrics (count_shutdown remaining s)) in
    (
      record { timed_out = late; remaining_records = remaining; metrics = metrics_snapshot after },
      after,
    )

-- `show` is the text of the worker's failure.
unfoldable pub drain_generation : WorkerOutcome → Shared → ShutdownReport × Shared
drain_generation no_worker s =
    let after = stop_acceptance s in
    (
      record {
        timed_out = false;
        remaining_records = remaining_records after;
        metrics = metrics_snapshot after;
      },
      after,
    )
drain_generation (joined report) s = (report, stop_acceptance s)
drain_generation (join_error error) s =
    abandon false (set_last_error (codes "exporter worker failed: " ++ error) (stop_acceptance s))
drain_generation deadline_elapsed s = abandon true (stop_acceptance s)

-- `Drop` of the handle: nothing is drained.
unfoldable pub drop_handle : Shared → Shared
drop_handle s =
    let closed = stop_acceptance s in
    set_status stopped (count_shutdown (remaining_records closed) closed)

-- `Drop` of the sink's `ProducerFence`
unfoldable pub close_producers : Shared → Shared
close_producers s = record s { producers_closed = true }

-- One generation of the exporter, as `prepare_generation` and the handle hold it.
pub record Generation {ℓ} (A : Type ℓ) : Type ℓ where
  pub collector : LogCollector A
  pub filter : SinkFilter

-- The handle that an installation gives, without the runtime and the task of the worker.
pub record ExporterHandle {ℓ} (A : Type ℓ) : Type ℓ where
  pub generation : Generation A
  pub registration : Option Registration

-- How an installation ends: before a generation is prepared, with a prepared generation that is
-- closed and dropped again, or with the handle.
pub data Installation {ℓ κ} (A : Type ℓ) (E : Type κ) : Type (ℓ ⊔ κ) where
  not_prepared : InstallError E → Installation A E
  not_registered : InstallError E → Generation A → Installation A E
  installed : ExporterHandle A → Installation A E

unfoldable pub close_generation {ℓ} : {A : Type ℓ} → Generation A → Generation A
close_generation prepared =
    let c = prepared.collector in
    record prepared { collector = record c { shared = stop_acceptance c.shared } }

-- The `match` on the result of `register_sink`: every error of it is the same one here.
unfoldable pub finish_install {ℓ κ} :
    {A : Type ℓ} {E : Type κ}
    → Generation A
    → Registry × Result Registration
    → Registry × Installation A E
finish_install prepared (st, ok registration) =
    (st, installed (record { generation = prepared; registration = some registration }))
finish_install prepared (st, err error) =
    (st, not_registered sink_already_installed (close_generation prepared))

-- Registers the sink of a prepared generation for the type with the number `key`.
unfoldable pub register_prepared {ℓ κ} :
    {A : Type ℓ} {E : Type κ}
    → Registry
    → ℕ
    → InstallError E ⊎ Generation A
    → Registry × Installation A E
register_prepared st key (inl error) = (st, not_prepared error)
register_prepared st key (inr prepared) = finish_install prepared (register_sink st key)

module _ {ℓ κ μ} {A : Type ℓ} {H : Type κ} {E : Type μ} (new_client : H → Option E) where
  unfoldable pub generation : ExporterConfig H → Generation A
  generation config = record {
    collector =
        new_collector
          (record {
            capacity = config.normal_queue_capacity;
            byte_capacity = config.normal_queue_bytes;
          })
          (record {
            capacity = config.reserved_queue_capacity;
            byte_capacity = config.reserved_queue_bytes;
          })
          (new_shared (min (config.diagnostic_interval / 1_000_000) u64_max));
    filter = record {
      min_level = config.min_level;
      audiences = config.audiences;
      priority_threshold = config.priority_threshold;
    };
  }

  -- `new_client` gives the error of the HTTP client, if it refuses its configuration.
  unfoldable pub prepare_generation : ExporterConfig H → InstallError E ⊎ Generation A
  prepare_generation config = elim (validate config) [
    | some message ↦ inl (invalid_config message)
    | none ↦ elim (new_client config.http) [
      | some error ↦ inl (transport error)
      | none ↦ inr (generation config)
    ]
  ]

  -- The records' type has the number `key` in the registry.
  unfoldable pub install_on : Registry → ℕ → ExporterConfig H → Registry × Installation A E
  install_on st key config = register_prepared st key (prepare_generation config)
