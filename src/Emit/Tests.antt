-- ===== src/Emit/Tests.antt =====
-- Emission at a concrete state: the filter is initialized and lets every level through, and a sink
-- is registered for the type 7.
use eden_logger.Base.{ℕ, ◌≡◌, refl, inl, none, some, [], ◌∷◌, Text, codes, text_eq}
use eden_logger.Level.{warn, client}
use eden_logger.Filter.{initialized}
use eden_logger.Decimal.{ℤ, pos}
use eden_logger.Decimal.Printer.{printer}
use eden_logger.Timestamp.{DateTime, new_timestamp_cache}
use eden_logger.Context.{RequestFields, LogContext, or_empty}
use eden_logger.Context.Additional.{IterationOrder, insert, entered}
use eden_logger.Counters.Plain.{plain_set}
use eden_logger.Writer.{init, default_config, format, format_from_u8, format_code}
use eden_logger.Registry.{empty_registry, register_sink}
use eden_logger.Record.{from_direct, Pairs, insert_pairs}
use eden_logger.Record.Paths.{IsInOrder, pair_entries}
use eden_logger.Emit.{Logger, emit, emit_direct}
use eden_logger.Emit.Pipeline.{effects_of, emit_direct-emit}
use eden_logger.Emit.Accounts.{Accounts}

-- maps that are iterated in the order of their first insertions
abbrev insertion_order : IterationOrder
insertion_order = record { arrange = λ m. m; arrange-IsMap = λ m h. h; get-arrange = λ k m h. refl }

abbrev no_fields : RequestFields ℕ
no_fields = record {
  default = 0;
  display_fields = λ r. [];
  json_fields = λ r. [];
  merge_request = λ r s. s;
  request_size = λ r. 8;
}

abbrev context : LogContext ℕ
context = record {
  trace_id = none;
  span_id = none;
  feature = some (codes "auth");
  function = none;
  error_code = none;
  error_category = none;
  request = 7;
  additional = some ((codes "k", codes "v") ∷ []);
}

abbrev instants : ℤ → DateTime
instants now = record {
  year = pos 2024;
  month = 2;
  day = 29;
  hour = 23;
  minute = 5;
  second = 59;
  millis = 7;
}

abbrev no_lower : ℕ → Text
no_lower c = c ∷ []

abbrev logger : Logger (ℕ → ℕ)
logger = record {
  filter = record { enabled_levels = 0; filter_state = initialized };
  counters = λ i. 0;
  writer = init default_config;
  registry = (register_sink empty_registry 7).0;
  timestamps = new_timestamp_cache;
  sink_cache = [];
}

abbrev pairs : Pairs
pairs = (codes "id", codes "42" ∷ []) ∷ []

emit_direct-emit_example :
    effects_of (
      emit_direct no_lower none printer instants plain_set no_fields 7 ⦃o = insertion_order⦄ logger
        (pos 0)
        (pos 0)
        (none, none)
        warn
        (codes "hi")
        context
        client
        pairs
        none
        none)
    ≡ effects_of (
        emit no_lower none printer instants plain_set no_fields 7 ⦃o = insertion_order⦄ logger (
          from_direct ⦃o = insertion_order⦄
            (instants (pos 0))
            (none, none)
            warn
            (codes "hi")
            context
            client
            pairs
            none
            none))
unfolding init format format_from_u8 format_code IsInOrder insert_pairs insert entered pair_entries
    or_empty text_eq
emit_direct-emit_example =
    emit_direct-emit no_lower none printer instants plain_set no_fields 7 ⦃o = insertion_order⦄
      logger (pos 0) (none, none) warn (codes "hi") context client pairs none none refl (inl refl)
      (λ e. cc) refl
