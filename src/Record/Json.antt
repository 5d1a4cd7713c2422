-- ===== src/Record/Json.antt =====
-- The JSON lines of crates/eden_logger/src/schema.rs: `JsonFieldWriter` and `write_json_direct`. A
-- function gives the bytes that the source appends to its buffer.
use eden_logger.Base.{ℕ, Option, none, some, List, [], ◌∷◌, ◌++◌, if◌then◌else◌, Text, codes}
use eden_logger.Level.{LogLevel, LogAudience, level_as_str, audience_as_str}
use eden_logger.Decimal.{ℤ, Itoa}
use eden_logger.Json.{write_json_escaped, write_escaped_chunks}
use eden_logger.Timestamp.{DateTime, TimestampCache, write_timestamp_rfc3339_now_cached}
use eden_logger.Context.Additional.{Entries}
use eden_logger.Context.{
  Field, write_str, write_u64, write_i64, write_bool, write_display, RequestFields, LogContext,
  or_empty, effective_trace_context,
}
use eden_logger.Record.{Pairs}

abbrev pub json_key : Text → Text
json_key key = codes ",\"" ++ write_json_escaped key

-- a key with a value between quotes
abbrev pub json_string : Text → Text → Text
json_string key value = json_key key ++ codes "\":\"" ++ write_json_escaped value ++ codes "\""

abbrev pub json_token : Text → Text → Text
json_token key token = json_key key ++ codes "\":" ++ token

abbrev pub json_chunks : Text → List Text → Text
json_chunks key chunks = json_key key ++ codes "\":\"" ++ write_escaped_chunks chunks ++ codes "\""

-- the methods of `JsonFieldWriter`
unfoldable pub write_json_field : Itoa → Field → Text
write_json_field itoa (write_str key value) = json_string key value
write_json_field itoa (write_u64 key value) = json_token key (itoa.unsigned value)
write_json_field itoa (write_i64 key value) = json_token key (itoa.signed value)
write_json_field itoa (write_bool key value) =
    json_token key (if value then codes "true" else codes "false")
write_json_field itoa (write_display key chunks) = json_chunks key chunks

unfoldable pub write_json_fields : Itoa → List Field → Text
write_json_fields itoa [] = []
write_json_fields itoa (field ∷ fields) =
    write_json_field itoa field ++ write_json_fields itoa fields

-- `json_field!`, whose key is a literal
unfoldable pub json_field : Text → Option Text → Text
json_field key none = []
json_field key (some value) =
    codes ",\"" ++ key ++ codes "\":\"" ++ write_json_escaped value ++ codes "\""

unfoldable pub json_entries : Entries → Text
json_entries [] = []
json_entries ((key, value) ∷ m) = json_string key value ++ json_entries m

unfoldable pub json_pairs : Pairs → Text
json_pairs [] = []
json_pairs ((key, chunks) ∷ pairs) = json_chunks key chunks ++ json_pairs pairs

unfoldable pub json_location : Itoa → Option Text → Option ℕ → Text
json_location itoa none line = []
json_location itoa (some file) none = codes ",\"file\":\"" ++ write_json_escaped file ++ codes "\""
json_location itoa (some file) (some line) =
    codes ",\"file\":\""
    ++ write_json_escaped file
    ++ codes "\""
    ++ codes ",\"line\":"
    ++ itoa.unsigned line

module _ {R : Type 0} where
  -- `write_json_direct` with the text `ts` of its timestamp
  unfoldable pub json_line :
      Itoa
      → RequestFields R
      → Text
      → Option Text × Option Text
      → LogLevel
      → Text
      → LogContext R
      → LogAudience
      → Pairs
      → Option Text
      → Option ℕ
      → Text
  json_line itoa fields ts current level message context audience pairs file line =
      let (trace_id, span_id) = effective_trace_context context current in
      codes "{\"ts\":\""
      ++ ts
      ++ codes "\",\"level\":\""
      ++ level_as_str level
      ++ codes "\",\"audience\":\""
      ++ audience_as_str audience
      ++ codes "\""
      ++ json_field (codes "trace_id") trace_id
      ++ json_field (codes "span_id") span_id
      ++ json_field (codes "feature") context.feature
      ++ json_field (codes "fn") context.function
      ++ write_json_fields itoa (fields.json_fields context.request)
      ++ json_field (codes "error_code") context.error_code
      ++ json_field (codes "error_category") context.error_category
      ++ json_entries (or_empty context.additional)
      ++ json_pairs pairs
      ++ json_location itoa file line
      ++ codes ",\"msg\":\""
      ++ write_json_escaped message
      ++ codes "\"}"

  unfoldable pub write_json_direct :
      Itoa
      → RequestFields R
      → (ℤ → DateTime)
      → TimestampCache
      → ℤ
      → Option Text × Option Text
      → LogLevel
      → Text
      → LogContext R
      → LogAudience
      → Pairs
      → Option Text
      → Option ℕ
      → TimestampCache × Text
  write_json_direct itoa fields instants cache now current level message context audience pairs file
        line =
      let (cache', ts) = write_timestamp_rfc3339_now_cached itoa instants cache now in
      (cache', json_line itoa fields ts current level message context audience pairs file line)
