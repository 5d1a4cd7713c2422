-- ===== src/Lib.antt =====
-- The Rust workspace of eden_logger: a structured logger (crates/eden_logger) and an exporter
-- (crates/eden_logger_export) that sends its records to an OpenTelemetry collector.
--
-- The call of a logging function gives a level, a message and a context, which holds ids, names and the
-- request fields of the application. The record is written to the output as a display line or a JSON
-- line, and given to the sink that is registered for the type of the request fields.
--
-- A record that the runtime filter lets through reaches the exporter's sink in the thread that
-- emitted it. The sink filters by severity and audience and submits it to the collector: admission
-- claims a slot and bytes of the normal queue, or for a record of high priority of the reserved one,
-- and the record goes into the lane of its thread. The worker drains the lanes into its inbox, gathers
-- batches within the configured limits, exports them, retries, isolates records that the collector
-- refuses, and completes tickets; the handle flushes, drains and ends a generation.
--
-- Parts and files:
--   Level.antt             LogLevel (crates/eden_logger/src/schema.rs) and LogAudience (context.rs)
--   Filter.antt            crates/eden_logger/src/filter.rs: the two statics are a record, each function
--                          a state transformer; Filter/Mask.antt and Filter/Levels.antt have its lemmas
--   Trace.antt             the ids of crates/eden_logger/src/trace.rs
--   Context.antt           LogContext (crates/eden_logger/src/context.rs), the traits of fields.rs and
--                          effective_trace_context (schema.rs); Context/Merge.antt has the
--                          laws; a HashMap is iterated in the order that an IterationOrder decides
--   Json.antt              write_json_escaped of crates/eden_logger/src/schema.rs; Json/Reader.antt is
--                          the format it is compared with
--   Decimal.antt           what is assumed of the itoa package; Decimal/Printer.antt is a printer with
--                          this behaviour
--   Timestamp.antt         the timestamps of schema.rs and their cache
--   Record.antt            EdenLog (schema.rs); Record/Json.antt and Record/Display.antt its two formats,
--                          Record/Object.antt the format of JSON objects on one line, Record/Line.antt
--                          the members of a line, Record/Size.antt the size estimate
--   Emit.antt              emit and emit_direct of schema.rs, which call the filter, the counters, the
--                          writer and the registry
--   Macros.antt            the arguments and expansions of crates/eden_logger_macros/src/lib.rs
--   Writer.antt            crates/eden_logger/src/writer.rs
--   Counters.antt          crates/eden_logger/src/metrics.rs; Counters/Plain.antt is a set of counters
--                          with the behaviour assumed of the fast_telemetry package
--   Registry.antt          crates/eden_logger/src/sink.rs: the statics are a record; Registry/Run.antt has
--                          the calls of an application and of the logger in any order
--   Export/Claim.antt      claim_amount, claim_queue, subtract of crates/eden_logger_export/src/collector.rs
--                          run by one thread; Export/Claim/Threads.antt has their interleavings, one
--                          shared access a step
--   Export/Collector.antt  lanes, submission and release of collector.rs; Export/Collector/Drain.antt
--                          draining and try_receive (worker.rs)
--   Export/Shared.antt     Shared and ExporterStatus (crates/eden_logger_export/src/lib.rs) with
--                          ExporterMetrics (metrics.rs)
--   Export/Config.antt     ExporterConfig, AudienceFilter, InstallError (lib.rs)
--   Export/Sink.antt       the function that make_sink returns (lib.rs)
--   Export/Handle.antt     force_flush, drain_generation, install_on, drops (lib.rs); install_on calls
--                          register_sink of the registry
--   Export/Metrics.antt    snapshots (metrics.rs); Export/Metrics/Visit.antt their report to a visitor
--   Export/Mapper.antt     severity numbers and ids of crates/eden_logger_export/src/mapper.rs;
--                          Export/Mapper/Attributes.antt its exported records
--   Export/Worker/         crates/eden_logger_export/src/worker.rs: Tracker (CompletionTracker), Sizer
--                          (ExportRequestSizer), Retry (retry_delay), Split (split_records), Batch
--                          (export_batch), Assemble (the gathering loops of run_worker), Shutdown (its
--                          arm for a terminal failure)
--
-- Numbers are natural numbers with the wrap-around or saturation of their machine width written out;
-- usize has 64 bits. Texts are lists of bytes in UTF-8 where the source walks bytes, and of code points
-- where it walks characters. Atomics are fields of explicit state; a function
-- runs without another thread inside it, but for Export/Claim/Threads.antt. Clocks, the answers of the
-- collector, the encoded length of a record, the HTTP client and the current span are parameters.
--
-- Fuel: varint_loop has ten rounds, which 64 bits need at most; drain_passes one pass more than there
-- are waiting records, of which each pass but the last takes one; advance one round more than there
-- are tickets out of order. The reader of JSON objects has as much fuel as there are bytes, more than
-- there are members, and parse_rest of the macros as many rounds as there are tokens, of which each
-- round takes one. The export loop has no fuel: it runs along the list of the answers.
--
-- Not modelled: the serde output of a record; the macro ctx_with_trace, which only names functions
-- that are; the whole loop of the worker, its waits, reconfigure and shutdown of the handle; the
-- runtime's tasks and notifications.
pub mod Base
pub mod Level
pub mod Context
pub mod Counters
pub mod Decimal
pub mod Emit
pub mod Export
pub mod Filter
pub mod Json
pub mod Macros
pub mod Record
pub mod Registry
pub mod Timestamp
pub mod Trace
pub mod Writer
