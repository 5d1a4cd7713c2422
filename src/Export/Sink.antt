-- ===== src/Export/Sink.antt =====
-- `SinkFilter` and the function that `make_sink` of crates/eden_logger_export/src/lib.rs returns: what
-- a producing thread runs for each record. `level`, `audience` and `size` (`estimated_size_bytes`)
-- read a record of type `A`.
pub mod Accounting
pub mod Admission
pub mod Outcome
pub mod Lanes
mod Tests
use eden_logger.Level.{LogLevel, LogAudience, level_ltb, level_leb}
use eden_logger.Export.Config.{AudienceFilter, allows}
use eden_logger.Export.Claim.{SubmitResult, accepted, record_capacity, byte_capacity}
use eden_logger.Export.Shared.{Shared, with_metrics, emergency}
use eden_logger.Export.Collector.{LogCollector, submit}
use eden_logger.Base.{
  ℕ, zero, suc, ◌+◌, ◌-◌, ◌*◌, ◌/◌, ◌%◌, ◌^◌, ◌≤◌, ◌<◌, min, max, bit_and, bit_or, ◌≡◌, refl, sym,
  ap, ◌∙◌, subst, ◌≢◌, ◌↔◌, ◌⊎◌, inl, inr, Bool, true, false, ◌&&◌, ◌||◌, not, Option, none, some,
  List, [], ◌∷◌, ◌++◌, map, append-nil, append_assoc, arith, ltb, leb, ◌==◌, if◌then◌else◌, ltb→lt,
  lt→ltb, leb→le, ==_iff, Bool-cases, Option-cases, ◌>>=◌, or_else, is_some, is_nil, length, take,
  drop, length-append, take-append-drop, length-take, length-drop, any, all, All, All-append,
  u64_mod, u64_max, u128_max, sat_add, sat_mul, wrap_add, wrap_sub, Text, codes, text_eq,
  text_eq_iff,
}

pub record SinkFilter : Type 0 where
  pub min_level : LogLevel
  pub audiences : AudienceFilter
  pub priority_threshold : LogLevel

unfoldable pub records_full_message : Text
records_full_message =
    codes "bounded log queue record capacities are full; records are being dropped"

unfoldable pub bytes_full_message : Text
bytes_full_message = codes "bounded log queue byte budgets are full; records are being dropped"

unfoldable pub count_stopped : Shared → Shared
count_stopped s =
    let m = s.metrics in
    with_metrics s (record m { dropped_stopped = wrap_add m.dropped_stopped 1 })

unfoldable pub count_filtered : Shared → Shared
count_filtered s =
    let m = s.metrics in with_metrics s (record m { filtered = wrap_add m.filtered 1 })

-- The `match` on the result of `submit`.
unfoldable pub count_result : ℕ → SubmitResult → Shared → Shared
count_result now accepted s = s
count_result now record_capacity s =
    let m = s.metrics in
    emergency now records_full_message
      (with_metrics s (record m { dropped_queue_full = wrap_add m.dropped_queue_full 1 }))
count_result now byte_capacity s =
    let m = s.metrics in
    emergency now bytes_full_message (
      with_metrics s
        (record m { dropped_queue_bytes_full = wrap_add m.dropped_queue_bytes_full 1 }))

module _ {ℓ} {A : Type ℓ} (level : A → LogLevel) (audience : A → LogAudience) (size : A → ℕ) where
  unfoldable pub is_filtered : SinkFilter → A → Bool
  is_filtered filter log =
      level_ltb (level log) filter.min_level || not (allows filter.audiences (audience log))

  unfoldable pub is_priority : SinkFilter → A → Bool
  is_priority filter log = level_leb filter.priority_threshold (level log)

  -- A record that `thread` emits at the time `now`.
  unfoldable pub sink : SinkFilter → ℕ → ℕ → A → LogCollector A → LogCollector A
  sink filter now thread log c =
      if not c.shared.accepting
      then record c { shared = count_stopped c.shared }
      else if is_filtered filter log
      then record c { shared = count_filtered c.shared }
      else let (after, result) = submit thread log (size log) (is_priority filter log) c in
        record after { shared = count_result now result after.shared }

  -- The records in order, each with its time and its thread.
  unfoldable pub sink_all : SinkFilter → List (ℕ × ℕ × A) → LogCollector A → LogCollector A
  sink_all filter [] c = c
  sink_all filter ((now, thread, log) ∷ calls) c =
      sink_all filter calls (sink filter now thread log c)
