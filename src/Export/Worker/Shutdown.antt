-- ===== src/Export/Worker/Shutdown.antt =====
-- The arm of `run_worker` of crates/eden_logger_export/src/worker.rs for a batch that failed
-- terminally, after its waits for the shutdown and for the last producer. `pending` are the mapped
-- records that wait for a next batch.
pub mod Report
mod Tests
use eden_logger.Export.Shared.{Shared, stopped, set_status, with_metrics, reset_live_metrics}
use eden_logger.Export.Metrics.{metrics_snapshot}
use eden_logger.Export.Collector.{LogCollector, WorkerInput, new_input, clear}
use eden_logger.Export.Handle.{ShutdownReport, count_shutdown}
use eden_logger.Export.Worker.Batch.{MappedLog}
use eden_logger.Base.{
  ℕ, zero, suc, ◌+◌, ◌-◌, ◌*◌, ◌/◌, ◌%◌, ◌^◌, ◌≤◌, ◌<◌, min, max, bit_and, bit_or, ◌≡◌, refl, sym,
  ap, ◌∙◌, subst, ◌≢◌, ◌↔◌, ◌⊎◌, inl, inr, Bool, true, false, ◌&&◌, ◌||◌, not, Option, none, some,
  List, [], ◌∷◌, ◌++◌, map, append-nil, append_assoc, arith, ltb, leb, ◌==◌, if◌then◌else◌, ltb→lt,
  lt→ltb, leb→le, ==_iff, Bool-cases, Option-cases, ◌>>=◌, or_else, is_some, is_nil, length, take,
  drop, length-append, take-append-drop, length-take, length-drop, any, all, All, All-append,
  u64_mod, u64_max, u128_max, sat_add, sat_mul, wrap_add, wrap_sub, Text, codes, text_eq,
  text_eq_iff,
}

-- The records of the batches that `export_batch` gave back.
unfoldable pub retained_count {ℓ} : {A : Type ℓ} → List (List (MappedLog A)) → ℕ
retained_count [] = 0
retained_count (batch ∷ batches) = length batch + retained_count batches

module _ {ℓ κ} {A : Type ℓ} {B : Type κ} where
  unfoldable pub finish_terminal :
      List (List (MappedLog B))
      → List (MappedLog B)
      → LogCollector A
      → WorkerInput A
      → ShutdownReport × LogCollector A × WorkerInput A
  finish_terminal retained pending c input =
      let m = c.shared.metrics in
      let queued = sat_add m.normal_queue_depth m.reserved_queue_depth in
      let remaining = sat_add (retained_count retained) queued in
      let cleared = clear (record c { shared = count_shutdown remaining c.shared }) in
      let after = set_status stopped (reset_live_metrics cleared.shared) in
      (
        record {
          timed_out = false;
          remaining_records = remaining;
          metrics = metrics_snapshot after;
        },
        record cleared { shared = after },
        new_input,
      )
