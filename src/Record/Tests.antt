-- ===== src/Record/Tests.antt =====
-- The lines of a concrete record, with a concrete printer.
use eden_logger.Base.{
  ℕ, min, ◌≡◌, refl, inl, inr, true, none, some, List, [], ◌∷◌, ◌++◌, map, arith, ltb, all, u64_max,
  Text, codes,
}
use eden_logger.Level.{warn, client}
use eden_logger.Decimal.{ℤ, pos}
use eden_logger.Decimal.Printer.{printer, printer-IsItoa}
use eden_logger.Timestamp.{DateTime, new_timestamp_cache, write_timestamp_rfc3339}
use eden_logger.Context.{RequestFields, LogContext, write_u64, effective_trace_context, or_empty}
use eden_logger.Json.{needs_escape}
use eden_logger.Record.{EdenLog}
use eden_logger.Record.Json.{write_json_direct}
use eden_logger.Record.Object.{text, read_object, joined}
use eden_logger.Record.Line.{
  context_members, head_members, optional, field_member, location_members,
}
use eden_logger.Record.Line.Reads.{read_object-write_json_direct}
use eden_logger.Record.Line.OneLine.{write_json_direct-visible}
use eden_logger.Json.RoundTrip.{is_visible, IsBytes}
use eden_logger.Record.Size.{Layout, estimated_size_bytes, retained_bytes, estimated_size_bytes_lem}

abbrev numbered : RequestFields ℕ
numbered = record {
  default = 0;
  display_fields = λ r. write_u64 (codes "tenant") r ∷ [];
  json_fields = λ r. write_u64 (codes "tenant") r ∷ [];
  merge_request = λ r s. s;
  request_size = λ r. 8;
}

abbrev context : LogContext ℕ
context = record {
  trace_id = none;
  span_id = none;
  feature = some (codes "auth");
  function = none;
  error_code = none;
  error_category = none;
  request = 7;
  additional = none;
}

abbrev instants : ℤ → DateTime
instants now = record {
  year = pos 2024;
  month = 2;
  day = 29;
  hour = 23;
  minute = 5;
  second = 59;
  millis = 7;
}

abbrev pairs : List (Text × List Text)
pairs = (codes "id", codes "4" ∷ codes "2" ∷ []) ∷ []

read_object-write_json_direct_example :
    read_object
      (write_json_direct printer numbered instants new_timestamp_cache
        (pos 0)
        (none, none)
        warn
        (codes "a\"b")
        context
        client
        pairs
        none
        none).1
    ≡ some (
        (codes "ts", text (write_timestamp_rfc3339 printer (instants (pos 0))))
          ∷ head_members warn client
        ++ map joined
            (context_members printer numbered (none, none) (codes "a\"b") context pairs none none))
unfolding context_members optional field_member location_members effective_trace_context or_empty
    needs_escape
read_object-write_json_direct_example =
    read_object-write_json_direct printer-IsItoa numbered instants new_timestamp_cache (pos 0)
      (none, none) warn (codes "a\"b") context client pairs none none (inl refl) (λ e. cc)
      (
        (inl refl, (inl refl, tt)),
        (inl refl, ((inl refl, (inl refl, (inl refl, tt))), ((inl refl, (inr refl, tt)), tt))),
      )

below : (t : Text) → all (λ b. ltb b 256) t ≡ true → IsBytes t
below [] h = tt
below (b ∷ t) h = (ground arith, below t (ground arith))

write_json_direct-visible_example :
    all is_visible
      (write_json_direct printer numbered instants new_timestamp_cache
        (pos 0)
        (none, none)
        warn
        (0xc3 ∷ 10 ∷ [])
        context
        client
        []
        none
        none).1
    ≡ true
unfolding context_members optional field_member location_members effective_trace_context or_empty
write_json_direct-visible_example =
    write_json_direct-visible printer-IsItoa numbered instants new_timestamp_cache (pos 0)
      (none, none) warn (0xc3 ∷ 10 ∷ []) context client [] none none (inl refl) (λ e. cc)
      (
        (below (codes "feature") refl, (below (codes "auth") refl, tt)),
        (
          below (codes "tenant") refl,
          ((below (codes "msg") refl, (below (0xc3 ∷ 10 ∷ []) refl, tt)), tt),
        ),
      )

abbrev layout : Layout
layout = record {
  record_size = 400;
  request_inline = 8;
  pair_size = 48;
  message_capacity = 16;
  additional_capacity = 3;
}

abbrev log : EdenLog ℕ
log = record {
  timestamp = instants (pos 0);
  level = warn;
  audience = client;
  message = codes "hi";
  trace_id = none;
  span_id = none;
  feature = some (codes "auth");
  function = none;
  file = none;
  line = none;
  request = 7;
  error_code = none;
  error_category = none;
  additional = [];
}

estimated_size_bytes_lem_example :
    estimated_size_bytes numbered layout log ≡ min (retained_bytes numbered layout log) u64_max
estimated_size_bytes_lem_example = estimated_size_bytes_lem numbered layout log (omega arith)
