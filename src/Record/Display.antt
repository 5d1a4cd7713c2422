-- ===== src/Record/Display.antt =====
-- The display lines of crates/eden_logger/src/schema.rs: `DisplayFieldWriter` with the defaults of
-- the trait `FieldWriter` of crates/eden_logger/src/fields.rs, `EdenLog::write_display` and
-- `write_display_direct`. A function gives the bytes that the source appends to its buffer.
use eden_logger.Base.{ℕ, Option, none, some, List, [], ◌∷◌, ◌++◌, if◌then◌else◌, Text, codes}
use eden_logger.Level.{LogLevel, LogAudience, level_as_colored_str, audience_as_str}
use eden_logger.Decimal.{ℤ, Itoa}
use eden_logger.Timestamp.{
  DateTime, TimestampCache, write_timestamp_rfc3339, write_timestamp_rfc3339_now_cached,
}
use eden_logger.Context.Additional.{Entries}
use eden_logger.Context.{
  Field, write_str, write_u64, write_i64, write_bool, write_display, RequestFields, LogContext,
  or_empty, effective_trace_context,
}
use eden_logger.Record.{EdenLog, Pairs, concat}

-- `DisplayFieldWriter::write_str`, and the values of the `field!` macro
unfoldable pub display_string : Text → Text → Text
display_string key value = b' ' ∷ key ++ b'=' ∷ value

-- the defaults of `FieldWriter`, which go through `write_str`
unfoldable pub write_display_field : Itoa → Field → Text
write_display_field itoa (write_str key value) = display_string key value
write_display_field itoa (write_u64 key value) = display_string key (itoa.unsigned value)
write_display_field itoa (write_i64 key value) = display_string key (itoa.signed value)
write_display_field itoa (write_bool key value) =
    display_string key (if value then codes "true" else codes "false")
write_display_field itoa (write_display key chunks) = display_string key (concat chunks)

unfoldable pub write_display_fields : Itoa → List Field → Text
write_display_fields itoa [] = []
write_display_fields itoa (field ∷ fields) =
    write_display_field itoa field ++ write_display_fields itoa fields

-- `field!`
unfoldable pub display_field : Text → Option Text → Text
display_field label none = []
display_field label (some value) = display_string label value

unfoldable pub display_entries : Entries → Text
display_entries [] = []
display_entries ((key, value) ∷ m) = display_string key value ++ display_entries m

unfoldable pub display_pairs : Pairs → Text
display_pairs [] = []
display_pairs ((key, chunks) ∷ pairs) = display_string key (concat chunks) ++ display_pairs pairs

unfoldable pub display_location : Itoa → Option Text → Option ℕ → Text
display_location itoa none line = []
display_location itoa (some file) none = codes "\n   --> " ++ file
display_location itoa (some file) (some line) =
    codes "\n   --> " ++ file ++ b':' ∷ itoa.unsigned line

-- `bracket!`
abbrev pub bracket : Text → Text
bracket value = b'[' ∷ value ++ b']' ∷ []

module _ {R : Type 0} where
  unfoldable pub write_display_log : Itoa → RequestFields R → EdenLog R → Text
  write_display_log itoa fields log =
      b'[' ∷ write_timestamp_rfc3339 itoa log.timestamp
      ++ codes "] "
      ++ bracket (level_as_colored_str log.level)
      ++ b' ' ∷ bracket (audience_as_str log.audience)
      ++ display_field (codes "trace_id") log.trace_id
      ++ display_field (codes "span_id") log.span_id
      ++ display_field (codes "feature") log.feature
      ++ display_field (codes "fn") log.function
      ++ write_display_fields itoa (fields.display_fields log.request)
      ++ display_field (codes "error") log.error_code
      ++ display_entries log.additional
      ++ b' ' ∷ log.message
      ++ display_location itoa log.file log.line

  unfoldable pub write_display_direct :
      Itoa
      → RequestFields R
      → (ℤ → DateTime)
      → TimestampCache
      → ℤ
      → Option Text × Option Text
      → LogLevel
      → Text
      → LogContext R
      → LogAudience
      → Pairs
      → Option Text
      → Option ℕ
      → TimestampCache × Text
  write_display_direct itoa fields instants cache now current level message context audience pairs
        file line =
      let (trace_id, span_id) = effective_trace_context context current in
      let (cache', ts) = write_timestamp_rfc3339_now_cached itoa instants cache now in
      (
        cache',
        b'[' ∷ ts
            ++ codes "] "
            ++ bracket (level_as_colored_str level)
            ++ b' ' ∷ bracket (audience_as_str audience)
            ++ display_field (codes "trace_id") trace_id
            ++ display_field (codes "span_id") span_id
            ++ display_field (codes "feature") context.feature
            ++ display_field (codes "fn") context.function
            ++ write_display_fields itoa (fields.display_fields context.request)
            ++ display_field (codes "error") context.error_code
            ++ display_entries (or_empty context.additional)
            ++ display_pairs pairs
            ++ b' ' ∷ message
            ++ display_location itoa file line,
      )
