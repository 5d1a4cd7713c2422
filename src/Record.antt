-- ===== src/Record.antt =====
-- The log record of crates/eden_logger/src/schema.rs: how it is made from a context.
pub mod Json
pub mod Display
pub mod Object
pub mod Line
pub mod Paths
pub mod Size
mod Tests
use eden_logger.Base.{
  ℕ, zero, suc, ◌+◌, ◌-◌, ◌*◌, ◌/◌, ◌%◌, ◌^◌, ◌≤◌, ◌<◌, min, max, bit_and, bit_or, ◌≡◌, refl, sym,
  ap, ◌∙◌, subst, ◌≢◌, ◌↔◌, ◌⊎◌, inl, inr, Bool, true, false, ◌&&◌, ◌||◌, not, Option, none, some,
  List, [], ◌∷◌, ◌++◌, map, append-nil, append_assoc, arith, ltb, leb, ◌==◌, if◌then◌else◌, ltb→lt,
  lt→ltb, leb→le, ==_iff, Bool-cases, Option-cases, ◌>>=◌, or_else, is_some, is_nil, checked,
  checked-at, length, take, drop, length-append, take-append-drop, length-take, length-drop, any,
  all, All, All-append, u64_mod, u64_max, u128_max, sat_add, sat_mul, wrap_add, wrap_sub, Text,
  codes, text_eq, text_eq_iff,
}
use eden_logger.Level.{LogLevel, LogAudience}
use eden_logger.Timestamp.{DateTime}
use eden_logger.Context.Additional.{Entries, IterationOrder, insert}
use eden_logger.Context.{RequestFields, LogContext, or_empty, effective_trace_context}

pub record EdenLog (R : Type 0) : Type 0 where
  pub timestamp : DateTime
  pub level : LogLevel
  pub audience : LogAudience
  pub message : Text
  pub trace_id : Option Text
  pub span_id : Option Text
  pub feature : Option Text
  pub function : Option Text
  pub file : Option Text
  pub line : Option ℕ
  pub request : R
  pub error_code : Option Text
  pub error_category : Option Text
  pub additional : Entries

-- The `key = value` pairs of a macro call: a value is the chunks that its `Display` writes.
abbrev pub Pairs : Type 0
Pairs = List (Text × List Text)

abbrev pub concat : List Text → Text
concat [] = []
concat (t ∷ chunks) = t ++ concat chunks

-- `for (key, value) in additional`
unfoldable pub insert_pairs : ⦃o : IterationOrder⦄ → Entries → Pairs → Entries
insert_pairs m [] = m
insert_pairs m ((key, value) ∷ pairs) = insert_pairs (insert key (concat value) m) pairs

module _ {R : Type 0} ⦃o : IterationOrder⦄ where
  -- `EdenLog::new`, at the instant `now` and with the ids `current` of the current span. The map of
  -- the context is cloned.
  unfoldable pub new_log :
      DateTime
      → Option Text × Option Text
      → LogLevel
      → Text
      → LogContext R
      → LogAudience
      → EdenLog R
  new_log now current level message context audience = record {
    timestamp = now;
    level = level;
    audience = audience;
    message = message;
    trace_id = (effective_trace_context context current).0;
    span_id = (effective_trace_context context current).1;
    feature = context.feature;
    function = context.function;
    file = none;
    line = none;
    request = context.request;
    error_code = context.error_code;
    error_category = context.error_category;
    additional = o.arrange (or_empty context.additional);
  }

  unfoldable pub with_location : EdenLog R → Text → ℕ → EdenLog R
  with_location log file line = record log { file = some file; line = some line }

  -- `EdenLog::with_additional`
  unfoldable pub log_with_additional : EdenLog R → Text → Text → EdenLog R
  log_with_additional log key value = record log { additional = insert key value log.additional }

  unfoldable pub from_direct :
      DateTime
      → Option Text × Option Text
      → LogLevel
      → Text
      → LogContext R
      → LogAudience
      → Pairs
      → Option Text
      → Option ℕ
      → EdenLog R
  from_direct now current level message context audience pairs file line =
      let log = new_log now current level message context audience in
      record log { file = file; line = line; additional = insert_pairs log.additional pairs }
