-- ===== src/Emit/Pipeline.antt =====
-- The two ways to emit a record in crates/eden_logger/src/schema.rs compared, and what the counters,
-- the output and the sink see of it.
use eden_logger.Base.{ℕ, ◌≡◌, refl, ◌≢◌, Bool, true, false, Option, none, some, Text}
use eden_logger.Level.{LogLevel, LogAudience}
use eden_logger.Filter.{Filter, should_log}
use eden_logger.Decimal.{ℤ, Itoa}
use eden_logger.Timestamp.{DateTime, i64_min}
use eden_logger.Timestamp.Cache.{IsFresh}
use eden_logger.Context.Additional.{IterationOrder}
use eden_logger.Context.{RequestFields, LogContext, or_empty}
use eden_logger.Counters.{CounterSet}
use eden_logger.Writer.{display, format}
use eden_logger.Record.{Pairs, from_direct, new_log}
use eden_logger.Record.Paths.{IsInOrder, write_display_direct_lem}
use eden_logger.Emit.{
  Logger, Effects, emit_allowed, emit_if, emit, format_direct, emit_direct_allowed, emit_direct_if,
  emit_direct,
}

-- what a call writes and delivers
abbrev pub effects_of : {C R : Type 0} → Option (Logger C × Effects R) → Option (Effects R)
effects_of none = none
effects_of (some (s, e)) = some e

module _ (lower_char : ℕ → Text) (env : Option Text) (itoa : Itoa) (instants : ℤ → DateTime)
    {C : Type 0} (set : CounterSet C) {R : Type 0} (fields : RequestFields R) (type_id : ℕ)
    ⦃o : IterationOrder⦄ where
  direct_if :
      (s : Logger C) (now : ℤ) (current : Option Text × Option Text) (level : LogLevel)
      (message : Text) (context : LogContext R) (audience : LogAudience) (pairs : Pairs)
      (file : Option Text) (line : Option ℕ) (passed : Option (Filter × Bool))
      → format s.writer ≡ display
      → IsFresh itoa instants s.timestamps
      → now ≢ i64_min
      → IsInOrder o (or_empty context.additional) pairs
      → effects_of (
          emit_direct_if lower_char env itoa instants set fields type_id s now now current level
            message context audience pairs file line passed)
        ≡ effects_of (
            emit_if lower_char env itoa instants set fields type_id s
              (from_direct (instants now) current level message context audience pairs file line)
              passed)
  unfolding emit_direct_if emit_if emit_direct_allowed emit_allowed format_direct
  direct_if s now current level message context audience pairs file line none shown fresh real
        in_order =
      refl
  direct_if s now current level message context audience pairs file line (some (filter, false))
        shown fresh real in_order =
      refl
  direct_if s now current level message context audience pairs file line (some (filter, true)) shown
        fresh real in_order =
      rw
        (
          shown,
          write_display_direct_lem itoa fields instants s.timestamps now current level message
              context audience pairs file line fresh real in_order,
        )
        refl

  -- In the display format, `emit_direct` writes the same bytes to the same stream and gives the same
  -- record to the same callback as `emit` of the record built from the same arguments, whether or not
  -- the level is let through. The two read one instant, which is not the least `i64`, and the
  -- timestamp cache holds that of its instant. It is assumed that the additional values of the record
  -- are iterated as the direct path writes them, the entries of the context and then the pairs, which
  -- a hash map with more than one entry does not promise.
  pub emit_direct-emit :
      (s : Logger C) (now : ℤ) (current : Option Text × Option Text) (level : LogLevel)
      (message : Text) (context : LogContext R) (audience : LogAudience) (pairs : Pairs)
      (file : Option Text) (line : Option ℕ)
      → format s.writer ≡ display
      → IsFresh itoa instants s.timestamps
      → now ≢ i64_min
      → IsInOrder o (or_empty context.additional) pairs
      → effects_of (
          emit_direct lower_char env itoa instants set fields type_id s now now current level
            message context audience pairs file line)
        ≡ effects_of (
            emit lower_char env itoa instants set fields type_id s
              (from_direct (instants now) current level message context audience pairs file line))
  unfolding emit_direct emit from_direct new_log
  emit_direct-emit s now current level message context audience pairs file line shown fresh real
        in_order =
      direct_if s now current level message context audience pairs file line
        (should_log lower_char env s.filter level) shown fresh real in_order
