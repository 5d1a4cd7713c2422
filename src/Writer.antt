-- ===== src/Writer.antt =====
-- crates/eden_logger/src/writer.rs: where lines go and in which format. The two statics are a
-- record; what is written to a stream is a list of the texts.
use eden_logger.Base.{ℕ, ◌≡◌, List, [], ◌∷◌, arith, ◌==◌, if◌then◌else◌, Text}
use eden_logger.Trace.{TraceSource, fast_telemetry, set_trace_source, trace_source}

pub data LogTarget : Type 0 where
  stderr stdout sink structured_sink : LogTarget

-- `target as u8`
unfoldable pub target_code : LogTarget → ℕ
target_code stderr = 0
target_code stdout = 1
target_code sink = 2
target_code structured_sink = 3

unfoldable pub target_from_u8 : ℕ → LogTarget
target_from_u8 v =
    if v == 1 then stdout else if v == 2 then sink else if v == 3 then structured_sink else stderr

pub data LogFormat : Type 0 where
  display json : LogFormat

unfoldable pub format_code : LogFormat → ℕ
format_code display = 0
format_code json = 1

unfoldable pub format_from_u8 : ℕ → LogFormat
format_from_u8 v = if v == 1 then json else display

pub record WriterConfig : Type 0 where
  pub config_target : LogTarget
  pub config_format : LogFormat
  pub config_source : TraceSource

abbrev pub default_config : WriterConfig
default_config = record {
  config_target = stderr;
  config_format = display;
  config_source = fast_telemetry;
}

-- The statics `TARGET` and `FORMAT`, and `TRACE_SOURCE` of crates/eden_logger/src/trace.rs.
pub record Writer : Type 0 where
  pub target_static : ℕ
  pub format_static : ℕ
  pub source_static : ℕ

unfoldable pub init : WriterConfig → Writer
init config = record {
  target_static = target_code config.config_target;
  format_static = format_code config.config_format;
  source_static = set_trace_source config.config_source;
}

unfoldable pub target : Writer → LogTarget
target w = target_from_u8 w.target_static

unfoldable pub format : Writer → LogFormat
format w = format_from_u8 w.format_static

-- what `write_all` writes to a stream; `io::sink` takes and drops it
pub data Write : Type 0 where
  to_stderr to_stdout to_nowhere : Text → Write

unfoldable pub write_line : LogTarget → Text → List Write
write_line stderr line = to_stderr line ∷ to_stderr (b'\n' ∷ []) ∷ []
write_line stdout line = to_stdout line ∷ to_stdout (b'\n' ∷ []) ∷ []
write_line sink line = to_nowhere line ∷ to_nowhere (b'\n' ∷ []) ∷ []
write_line structured_sink line = []

-- `log`
unfoldable pub log_line : Writer → Text → List Write
log_line w line = write_line (target w) line

unfoldable pub write_bytes : LogTarget → Text → List Write
write_bytes stderr bytes = to_stderr bytes ∷ []
write_bytes stdout bytes = to_stdout bytes ∷ []
write_bytes sink bytes = to_nowhere bytes ∷ []
write_bytes structured_sink bytes = []

unfoldable pub log_bytes : Writer → Text → List Write
log_bytes w bytes = write_bytes (target w) bytes

-- the writer works as configured
pub init_lem :
    (config : WriterConfig)
    → (target (init config) ≡ config.config_target)
      × (format (init config) ≡ config.config_format)
      × (trace_source (init config).source_static ≡ config.config_source)
unfolding init target format target_from_u8 target_code format_from_u8 format_code set_trace_source
    trace_source
init_lem config = ground arith
