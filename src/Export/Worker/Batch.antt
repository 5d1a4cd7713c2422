-- ===== src/Export/Worker/Batch.antt =====
-- `export_batch`, `terminal`, `reject_record` and `reject_oversize` of
-- crates/eden_logger_export/src/worker.rs. The collector is an environment: it answers each
-- attempt, and between two attempts the handle may stop acceptance. One event is one attempt.
pub mod Order
pub mod Accounting
pub mod Termination
use eden_logger.Export.Shared.{
  Shared, ExporterMetrics, ExporterStatus, running, backing_off, terminal_failure, shutting_down,
  set_status, emergency, set_last_error, stop_acceptance, with_metrics,
}
use eden_logger.Export.Worker.Tracker.{Tracker, complete}
use eden_logger.Export.Worker.Retry.{backoff}
use eden_logger.Export.Worker.Split.{split_records}
use eden_logger.Base.{
  ℕ, zero, suc, ◌+◌, ◌-◌, ◌*◌, ◌/◌, ◌%◌, ◌^◌, ◌≤◌, ◌<◌, min, max, bit_and, bit_or, ◌≡◌, refl, sym,
  ap, ◌∙◌, subst, ◌≢◌, ◌↔◌, ◌⊎◌, inl, inr, Bool, true, false, ◌&&◌, ◌||◌, not, Option, none, some,
  List, [], ◌∷◌, ◌++◌, map, append-nil, append_assoc, arith, ltb, leb, ◌==◌, if◌then◌else◌, ltb→lt,
  lt→ltb, leb→le, ==_iff, Bool-cases, Option-cases, ◌>>=◌, or_else, is_some, is_nil, length, take,
  drop, length-append, take-append-drop, length-take, length-drop, any, all, All, All-append,
  u64_mod, u64_max, u128_max, sat_add, sat_mul, wrap_add, wrap_sub, Text, codes, text_eq,
  text_eq_iff,
}

-- `OtlpHttpError`, by what the worker reads of it.
pub record ExportError : Type 0 where
  pub invalid_payload : Bool
  pub retryable : Bool
  pub retry_after : Option ℕ
  pub text : Text

-- The result of `export_logs`.
pub data Response : Type 0 where
  succeeded : (accepted rejected : ℕ) (message : Option Text) → Response
  failed : ExportError → Response

-- One attempt: the clock in milliseconds and its part below a second, the answer, and whether
-- acceptance is stopped before the worker goes on.
pub record Event : Type 0 where
  pub now : ℕ
  pub subsec_nanos : ℕ
  pub response : Response
  pub stops : Bool

pub record MappedLog {ℓ} (A : Type ℓ) : Type ℓ where
  pub ticket : ℕ
  pub log_record : A

pub record RetryConfig : Type 0 where
  pub retry_initial : ℕ
  pub retry_max : ℕ

-- The shared state, the tickets, and the delays that the worker has slept, the last one first.
pub record Worker : Type 0 where
  pub shared : Shared
  pub completions : Tracker
  pub slept : List ℕ

-- `BatchResult`, or the batch that is being exported with the stack of those that wait.
pub data Progress {ℓ} (A : Type ℓ) : Type ℓ where
  working :
      (records : List (MappedLog A)) (failures : ℕ) (pending : List (List (MappedLog A)))
      → Progress A
  complete_result : Progress A
  terminal_result : (retained : List (List (MappedLog A))) → Progress A

unfoldable pub partial_message : Option Text → Text
partial_message none = codes "collector partially rejected an OTLP log batch"
partial_message (some message) = message

unfoldable pub reject_message : Text → Text
reject_message reason = codes "collector rejected an individual log record: " ++ reason

unfoldable pub oversize_message : Text
oversize_message = codes "an encoded log record exceeded max_batch_bytes and was dropped"

unfoldable pub terminal_message : Text → Text
terminal_message error = codes "OTLP exporter entered terminal failure: " ++ error

-- `CompletionTracker::complete`, with the store to `completed_ticket`.
unfoldable pub complete_ticket : ℕ → Worker → Worker
complete_ticket ticket w =
    let t = complete w.completions ticket in
    if leb ticket w.completions.watermark
    then w
    else record w { shared = record (w.shared) { completed_ticket = t.watermark }; completions = t }

unfoldable pub count_attempt : Worker → Worker
count_attempt w =
    let m = w.shared.metrics in
    record w {
      shared = with_metrics w.shared (record m { export_attempts = wrap_add m.export_attempts 1 });
    }

unfoldable pub count_exported : ℕ → Worker → Worker
count_exported n w =
    let m = w.shared.metrics in
    record w {
      shared =
          with_metrics w.shared
            (record m { exported = wrap_add m.exported n; batches = wrap_add m.batches 1 });
    }

unfoldable pub count_partial : ℕ → ℕ → Worker → Worker
count_partial accepted rejected w =
    let m = w.shared.metrics in
    record w {
      shared = with_metrics w.shared (record m {
        partial_rejections = wrap_add m.partial_rejections 1;
        exported = wrap_add m.exported accepted;
        rejected = wrap_add m.rejected rejected;
        batches = wrap_add m.batches 1;
      });
    }

unfoldable pub warn_emergency : ℕ → Text → Worker → Worker
warn_emergency now message w = record w { shared = emergency now message w.shared }

unfoldable pub reject_record : ℕ → Text → Worker → Worker
reject_record now reason w =
    let m = w.shared.metrics in
    warn_emergency now (reject_message reason)
      (record w { shared = with_metrics w.shared (record m { rejected = wrap_add m.rejected 1 }) })

unfoldable pub reject_oversize : ℕ → Worker → Worker
reject_oversize now w =
    let m = w.shared.metrics in
    warn_emergency now oversize_message (record w {
      shared = with_metrics w.shared (record m {
        dropped_oversize = wrap_add m.dropped_oversize 1;
        rejected = wrap_add m.rejected 1;
      });
    })

-- The arm of a retryable error: back off, sleep, and take the status from `accepting`.
unfoldable pub retry_later : RetryConfig → Event → ExportError → ℕ → Worker → Worker
retry_later config event error failures w =
    let m = w.shared.metrics in
    let counted = with_metrics w.shared (record m { retries = wrap_add m.retries 1 }) in
    let waiting = set_last_error error.text (set_status backing_off counted) in
    let woken = if event.stops then stop_acceptance waiting else waiting in
    record w {
      shared = set_status (if woken.accepting then running else shutting_down) woken;
      slept =
          backoff error.retry_after event.subsec_nanos failures config.retry_initial
            config.retry_max
          ∷ w.slept;
    }

unfoldable pub fail_terminally : ℕ → ExportError → Worker → Worker
fail_terminally now error w = record w {
  shared =
      emergency now (terminal_message error.text)
        (set_status terminal_failure (set_last_error error.text w.shared));
}

module _ {ℓ} {A : Type ℓ} where
  unfoldable pub complete_all_tickets : List (MappedLog A) → Worker → Worker
  complete_all_tickets [] w = w
  complete_all_tickets (r ∷ rs) w = complete_all_tickets rs (complete_ticket r.ticket w)

  -- `while let Some(records) = pending.pop()`
  unfoldable pub pop_batch : List (List (MappedLog A)) → Progress A
  pop_batch [] = complete_result
  pop_batch (records ∷ pending) = working records 0 pending

  unfoldable pub export_batch : List (MappedLog A) → Progress A
  export_batch batch = pop_batch (batch ∷ [])

  -- The arm of an invalid payload.
  unfoldable pub isolate :
      ℕ
      → ExportError
      → List (MappedLog A)
      → List (List (MappedLog A))
      → Worker
      → Worker × Progress A
  isolate now error (r ∷ []) pending w =
      (complete_ticket r.ticket (reject_record now error.text w), pop_batch pending)
  isolate now error records pending w = (w, pop_batch (split_records records pending))

  unfoldable pub on_error :
      RetryConfig
      → Event
      → ExportError
      → List (MappedLog A)
      → ℕ
      → List (List (MappedLog A))
      → Worker
      → Worker × Progress A
  on_error config event error records failures pending w =
      let again = min (failures + 1) 0xFFFF_FFFF in
      if error.invalid_payload
      then isolate event.now error records pending w
      else if error.retryable
      then (retry_later config event error again w, working records again pending)
      else (fail_terminally event.now error w, terminal_result (records ∷ pending))

  unfoldable pub on_response :
      RetryConfig
      → Event
      → Response
      → List (MappedLog A)
      → ℕ
      → List (List (MappedLog A))
      → Worker
      → Worker × Progress A
  on_response config event (succeeded accepted rejected message) records failures pending w =
      if rejected == 0
      then (complete_all_tickets records (count_exported (length records) w), pop_batch pending)
      else (
        warn_emergency event.now (partial_message message)
            (complete_all_tickets records (count_partial accepted rejected w)),
        pop_batch pending,
      )
  on_response config event (failed error) records failures pending w =
      on_error config event error records failures pending w

  -- One attempt of the inner loop.
  unfoldable pub attempt : RetryConfig → Event → Worker × Progress A → Worker × Progress A
  attempt config event (w, working records failures pending) =
      on_response config event event.response records failures pending (count_attempt w)
  attempt config event (w, complete_result) = (w, complete_result)
  attempt config event (w, terminal_result retained) = (w, terminal_result retained)

  -- The attempts in order.
  unfoldable pub attempts : RetryConfig → List Event → Worker × Progress A → Worker × Progress A
  attempts config [] s = s
  attempts config (e ∷ es) s = attempts config es (attempt config e s)
