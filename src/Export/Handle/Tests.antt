-- ===== src/Export/Handle/Tests.antt =====
-- The handle at concrete states.
use eden_logger.Export.Shared.{running, Shared, new_shared}
use eden_logger.Export.Config.{ExporterConfig, new_config, validate}
use eden_logger.Export.Handle.{
  flushed, force_flush, ShutdownReport, no_worker, joined, deadline_elapsed, join_error,
  drain_generation, install_on,
}
use eden_logger.Export.Handle.Flush.{Claims, IsPending, force_flush_lem}
use eden_logger.Export.Handle.Lifecycle.{
  IsAbandoned, IsLeft, records_left, drain_generation_abandons,
}
use eden_logger.Export.Handle.Install.{IsInstall, is_installed, install_on_iff}
use eden_logger.Export.Claim.{Limits, SubmitResult}
use eden_logger.Export.Collector.{LogCollector, submit, new_collector, new_input}
use eden_logger.Export.Collector.Accounting.{here, next, submits, collector_accounts}
use eden_logger.Export.Metrics.{metrics_snapshot}
use eden_logger.Registry.{Registry, empty_registry, register_sink, register_in, fill_slot}
use eden_logger.Registry.Slots.{find, or_insert, view, callback_of, set_callback}
use eden_logger.Registry.Invariant.{IsSound, register_sink-IsSound}
use eden_logger.Registry.Run.{start-IsSound}
use eden_logger.Export.Config.Validation.{IsUsable, validate_iff}
use eden_logger.Filter.{trim, trim_start, is_whitespace}
use eden_logger.Base.{
  ℕ, refl, arith, ◌≤◌, ◌≡◌, true, false, Option, none, [], ◌∷◌, All, Text, codes,
}

abbrev two_accepted : Shared
two_accepted = record (new_shared 60) { next_ticket = 2 }

force_flush_lem_example :
    let r = force_flush two_accepted 2 ((1, running) ∷ (2, running) ∷ []) in
    (r.target_ticket ≡ 2)
    × Claims r.status 2 r.completed_ticket
    × (All (IsPending 2) ((1, running) ∷ []) → 2 ≤ 2 → r.status ≡ flushed)
force_flush_lem_example = force_flush_lem two_accepted 2 ((1, running) ∷ []) [] 2 running

-- One record waits in the normal queue.
abbrev tens : Limits
tens = record { capacity = 10; byte_capacity = 1000 }

one_waiting : LogCollector ℕ × SubmitResult
one_waiting = submit 7 5 40 false (new_collector tens tens (new_shared 60))

abbrev ended : ShutdownReport
ended = record {
  timed_out = false;
  remaining_records = 0;
  metrics = metrics_snapshot (new_shared 60);
}

drain_generation_abandons_example :
    let s = one_waiting.0.shared in
    let n = records_left one_waiting.0 new_input in
    let (failed, after_failure) = drain_generation (join_error (codes "panic")) s in
    let (late, after_deadline) = drain_generation deadline_elapsed s in
    let (idle, after_idle) = drain_generation no_worker s in
    let (report, after_end) = drain_generation (joined ended) s in
    IsAbandoned false n s failed after_failure
    × IsAbandoned true n s late after_deadline
    × IsLeft n s idle after_idle
    × (report ≡ ended)
    × (after_end.accepting ≡ false)
unfolding one_waiting
drain_generation_abandons_example =
    drain_generation_abandons (codes "panic") ended one_waiting.0 new_input (
      collector_accounts tens tens 60 (omega arith, omega arith) (omega arith, omega arith)
        (next here (submits _ new_input 7 5 40 false)))

abbrev service : ExporterConfig ℕ
service = new_config 0 (codes "svc")

abbrev takes_all : ℕ → Option Text
takes_all http = none

-- Another type has a sink already, and the one of the records, 7, has none.
other_taken : Registry
other_taken = (register_sink empty_registry 3).0

other_taken-IsSound : IsSound other_taken
unfolding other_taken
other_taken-IsSound = register_sink-IsSound empty_registry 3 start-IsSound

install_on_iff_example :
    let (after, result) = install_on {A = ℕ} takes_all other_taken 7 service in
    IsInstall takes_all ℕ other_taken 7 service after result
install_on_iff_example = install_on_iff takes_all ℕ other_taken 7 service other_taken-IsSound

-- The instance is one of success: the type 7 gets a callback, and the type 3 keeps its own.
service-IsUsable : IsUsable service
unfolding new_config validate trim trim_start is_whitespace
service-IsUsable = (validate_iff service).0 refl

installs : is_installed (install_on {A = ℕ} takes_all other_taken 7 service).1 ≡ true
unfolding other_taken register_sink register_in fill_slot find or_insert view callback_of
    set_callback
installs = install_on_iff_example.succeeds.1 (service-IsUsable, refl, refl, refl)
