-- ===== src/Emit.antt =====
-- How a record is emitted: `emit` and `emit_direct` of crates/eden_logger/src/schema.rs with the
-- filter, the counters, the writer and the registry of sinks that they call. The state of the
-- process and of the thread is a record, and a call gives what is written and which callback gets
-- which record.
pub mod Pipeline
pub mod Accounts
mod Tests
use eden_logger.Base.{
  ℕ, zero, suc, ◌+◌, ◌-◌, ◌*◌, ◌/◌, ◌%◌, ◌^◌, ◌≤◌, ◌<◌, min, max, bit_and, bit_or, ◌≡◌, refl, sym,
  ap, ◌∙◌, subst, ◌≢◌, ◌↔◌, ◌⊎◌, inl, inr, Bool, true, false, ◌&&◌, ◌||◌, not, Option, none, some,
  List, [], ◌∷◌, ◌++◌, map, append-nil, append_assoc, arith, ltb, leb, ◌==◌, if◌then◌else◌, ltb→lt,
  lt→ltb, leb→le, ==_iff, Bool-cases, Option-cases, ◌>>=◌, or_else, is_some, is_nil, checked,
  checked-at, length, take, drop, length-append, take-append-drop, length-take, length-drop, any,
  all, All, All-append, u64_mod, u64_max, u128_max, sat_add, sat_mul, wrap_add, wrap_sub, Text,
  codes, text_eq, text_eq_iff,
}
use eden_logger.Level.{LogLevel, LogAudience}
use eden_logger.Filter.{Filter, should_log}
use eden_logger.Decimal.{ℤ, Itoa}
use eden_logger.Timestamp.{DateTime, TimestampCache}
use eden_logger.Context.Additional.{IterationOrder}
use eden_logger.Context.{RequestFields, LogContext}
use eden_logger.Counters.{CounterSet, record_emitted}
use eden_logger.Writer.{
  Writer, LogTarget, stderr, stdout, sink, structured_sink, target, LogFormat, display, json,
  format, Write, log_bytes,
}
use eden_logger.Registry.{Registry, dispatch}
use eden_logger.Record.{EdenLog, Pairs, from_direct}
use eden_logger.Record.Json.{write_json_direct}
use eden_logger.Record.Display.{write_display_log, write_display_direct}

-- The statics of the process, and the caches of the thread.
pub record Logger (C : Type 0) : Type 0 where
  pub filter : Filter
  pub counters : C
  pub writer : Writer
  pub registry : Registry
  pub timestamps : TimestampCache
  pub sink_cache : List ℕ

-- What a call writes, and the callback that it gives the record to.
pub record Effects (R : Type 0) : Type 0 where
  pub written : List Write
  pub delivered : Option (ℕ × EdenLog R)

abbrev pub no_effects : {R : Type 0} → Effects R
no_effects = record { written = []; delivered = none }

-- `target() != LogTarget::StructuredSink`
unfoldable pub writes_text : LogTarget → Bool
writes_text structured_sink = false
writes_text _ = true

unfoldable pub deliver {ℓ} : {A : Type ℓ} → A → Option ℕ → Option (ℕ × A)
deliver log none = none
deliver log (some callback) = some (callback, log)

-- The parameters: the lower case beyond ASCII, the value of the environment variable, the packages
-- `itoa`, `chrono` and `fast_telemetry`, and the request fields with the number of their type.
module _ (lower_char : ℕ → Text) (env : Option Text) (itoa : Itoa) (instants : ℤ → DateTime)
    {C : Type 0} (set : CounterSet C) {R : Type 0} (fields : RequestFields R) (type_id : ℕ)
    ⦃o : IterationOrder⦄ where
  -- the part of `emit` behind the filter
  unfoldable pub emit_allowed : Logger C → EdenLog R → Logger C × Effects R
  emit_allowed s log =
      let written =
        if writes_text (target s.writer)
        then log_bytes s.writer (write_display_log itoa fields log ++ b'\n' ∷ [])
        else [] in
      let (cache, callback) = dispatch s.registry s.sink_cache type_id in
      (
        record s {
          counters = record_emitted set s.counters log.level log.audience;
          sink_cache = cache;
        },
        record { written = written; delivered = deliver log callback },
      )

  unfoldable pub emit_if :
      Logger C → EdenLog R → Option (Filter × Bool) → Option (Logger C × Effects R)
  emit_if s log none = none
  emit_if s log (some (filter, false)) = some (record s { filter = filter }, no_effects)
  emit_if s log (some (filter, true)) = some (emit_allowed (record s { filter = filter }) log)

  -- `emit`; the result is none where `should_log` waits for another thread for ever
  unfoldable pub emit : Logger C → EdenLog R → Option (Logger C × Effects R)
  emit s log = emit_if s log (should_log lower_char env s.filter log.level)

  -- the text line of `emit_direct`
  unfoldable pub format_direct :
      LogFormat
      → TimestampCache
      → ℤ
      → Option Text × Option Text
      → LogLevel
      → Text
      → LogContext R
      → LogAudience
      → Pairs
      → Option Text
      → Option ℕ
      → TimestampCache × Text
  format_direct json cache now current level message context audience pairs file line =
      write_json_direct itoa fields instants cache now current level message context audience pairs
        file line
  format_direct display cache now current level message context audience pairs file line =
      write_display_direct itoa fields instants cache now current level message context audience
        pairs file line

  -- The part of `emit_direct` behind the filter: `now` is the instant of the text line and `later`
  -- that of the record that a sink gets.
  unfoldable pub emit_direct_allowed :
      Logger C
      → ℤ
      → ℤ
      → Option Text × Option Text
      → LogLevel
      → Text
      → LogContext R
      → LogAudience
      → Pairs
      → Option Text
      → Option ℕ
      → Logger C × Effects R
  emit_direct_allowed s now later current level message context audience pairs file line =
      let (timestamps, text) =
        format_direct (format s.writer) s.timestamps now current level message context audience
          pairs file line in
      let writes = writes_text (target s.writer) in
      let (cache, callback) = dispatch s.registry s.sink_cache type_id in
      (
        record s {
          counters = record_emitted set s.counters level audience;
          timestamps = if writes then timestamps else s.timestamps;
          sink_cache = cache;
        },
        record {
          written = if writes then log_bytes s.writer (text ++ b'\n' ∷ []) else [];
          delivered =
              deliver
                (from_direct (instants later) current level message context audience pairs file
                  line)
                callback;
        },
      )

  unfoldable pub emit_direct_if :
      Logger C
      → ℤ
      → ℤ
      → Option Text × Option Text
      → LogLevel
      → Text
      → LogContext R
      → LogAudience
      → Pairs
      → Option Text
      → Option ℕ
      → Option (Filter × Bool)
      → Option (Logger C × Effects R)
  emit_direct_if s now later current level message context audience pairs file line none = none
  emit_direct_if s now later current level message context audience pairs file line
        (some (filter, false)) =
      some (record s { filter = filter }, no_effects)
  emit_direct_if s now later current level message context audience pairs file line
        (some (filter, true)) =
      some (
        emit_direct_allowed (record s { filter = filter }) now later current level message context
          audience pairs file line)

  unfoldable pub emit_direct :
      Logger C
      → ℤ
      → ℤ
      → Option Text × Option Text
      → LogLevel
      → Text
      → LogContext R
      → LogAudience
      → Pairs
      → Option Text
      → Option ℕ
      → Option (Logger C × Effects R)
  emit_direct s now later current level message context audience pairs file line =
      emit_direct_if s now later current level message context audience pairs file line
        (should_log lower_char env s.filter level)
