-- ===== src/Export/Mapper/Attributes/Tests.antt =====
-- The attributes of a concrete record, after a test of crates/eden_logger_export/src/mapper.rs.
use eden_logger.Base.{
  ◌≡◌, refl, Option, none, some, List, [], ◌∷◌, map, or_else, length, Text, codes, text_eq,
}
use eden_logger.Level.{info, internal, audience_as_str}
use eden_logger.Decimal.{pos}
use eden_logger.Context.{RequestFields, write_str}
use eden_logger.Record.{EdenLog}
use eden_logger.Export.Mapper.{record_ids, decode_hex_id}
use eden_logger.Export.Mapper.Attributes.{AnyValue, string_value, map_with_attributes}
use eden_logger.Export.Mapper.Attributes.Precedence.{
  attribute, latest, extra_writes, field_write, additional_writes, intrinsic_writes,
  map_with_attributes_lem,
}

abbrev tenants : RequestFields Text
tenants = record {
  default = [];
  display_fields = λ r. write_str (codes "tenant.id") r ∷ [];
  json_fields = λ r. write_str (codes "tenant.id") r ∷ [];
  merge_request = λ r s. s;
  request_size = λ r. length r;
}

abbrev log : EdenLog Text
log = record {
  timestamp = record {
    year = pos 2024;
    month = 2;
    day = 29;
    hour = 23;
    minute = 5;
    second = 59;
    millis = 7;
  };
  level = info;
  audience = internal;
  message = codes "hello";
  trace_id = none;
  span_id = none;
  feature = none;
  function = none;
  file = none;
  line = none;
  request = codes "request-tenant";
  error_code = none;
  error_category = none;
  additional =
      (codes "tenant.id", codes "additional-tenant") ∷ (codes "eden.audience", codes "forged") ∷ [];
}

abbrev extra : List (Text × Option AnyValue)
extra = (codes "tenant.id", some (string_value (codes "stream-tenant"))) ∷ []

-- the supplied value wins over the request field, and the intrinsic one over the additional value
winners :
    (or_else
        (latest (codes "tenant.id") (intrinsic_writes log))
        (latest (codes "tenant.id") (extra_writes extra))
      ≡ some (string_value (codes "stream-tenant")))
    × (latest (codes "eden.audience") (intrinsic_writes log)
        ≡ some (string_value (codes "INTERNAL")))
unfolding latest intrinsic_writes record_ids decode_hex_id text_eq audience_as_str
winners = (refl, refl)

map_with_attributes_lem_example :
    attribute (codes "tenant.id") (map_with_attributes tenants (λ ts. none) log 1 extra).attributes
    ≡ or_else (latest (codes "tenant.id") (intrinsic_writes log)) (
        or_else (latest (codes "tenant.id") (extra_writes extra)) (
          or_else
            (latest (codes "tenant.id") (map field_write (tenants.json_fields log.request)))
            (latest (codes "tenant.id") (additional_writes log.additional))))
map_with_attributes_lem_example =
    map_with_attributes_lem tenants (λ ts. none) log 1 extra (codes "tenant.id")
