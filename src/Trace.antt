-- ===== src/Trace.antt =====
-- The selection of the trace source and the hexadecimal ids of crates/eden_logger/src/trace.rs. The
-- ids of the current span come from other packages, as bytes; a source that is not compiled in
-- gives none.
use eden_logger.Base.{
  ℕ, ◌+◌, ◌-◌, ◌/◌, ◌%◌, Option, none, some, List, [], ◌∷◌, ltb, ◌==◌, if◌then◌else◌, Text,
}

pub data TraceSource : Type 0 where
  fast_telemetry otel : TraceSource

-- The value of `TRACE_SOURCE` that `set_trace_source` stores.
unfoldable pub set_trace_source : TraceSource → ℕ
set_trace_source fast_telemetry = 0
set_trace_source otel = 1

unfoldable pub trace_source : ℕ → TraceSource
trace_source stored = if stored == 1 then otel else fast_telemetry

-- `HEX_CHARS[nibble]`
unfoldable pub hex_char : ℕ → ℕ
hex_char nibble = if ltb nibble 10 then b'0' + nibble else b'a' + (nibble - 10)

-- `hex_encode_16` and `hex_encode_8`
unfoldable pub hex_encode : List ℕ → Text
hex_encode [] = []
hex_encode (b ∷ bytes) = hex_char (b / 16) ∷ hex_char (b % 16) ∷ hex_encode bytes

unfoldable pub ids_from_bytes : Option (List ℕ × List ℕ) → Option Text × Option Text
ids_from_bytes none = (none, none)
ids_from_bytes (some (trace, span)) = (some (hex_encode trace), some (hex_encode span))

-- `fast` and `current` are the ids that the two sources give.
unfoldable pub extract_trace_context :
    ℕ → Option (List ℕ × List ℕ) → Option (List ℕ × List ℕ) → Option Text × Option Text
extract_trace_context stored fast current = elim (trace_source stored) [
  | fast_telemetry ↦ ids_from_bytes fast
  | otel ↦ ids_from_bytes current
]
