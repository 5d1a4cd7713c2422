-- ===== src/Export/Mapper/Attributes.antt =====
-- `map_with_attributes` of crates/eden_logger_export/src/mapper.rs: the attributes of an exported
-- record. A `BTreeMap` is the list of its entries in the order of their keys.
pub mod Precedence
mod Tests
use eden_logger.Base.{
  ℕ, zero, suc, ◌+◌, ◌-◌, ◌*◌, ◌/◌, ◌%◌, ◌^◌, ◌≤◌, ◌<◌, min, max, bit_and, bit_or, ◌≡◌, refl, sym,
  ap, ◌∙◌, subst, ◌≢◌, ◌↔◌, ◌⊎◌, inl, inr, Bool, true, false, ◌&&◌, ◌||◌, not, Option, none, some,
  List, [], ◌∷◌, ◌++◌, map, append-nil, append_assoc, arith, ltb, leb, ◌==◌, if◌then◌else◌, ltb→lt,
  lt→ltb, leb→le, ==_iff, Bool-cases, Option-cases, ◌>>=◌, or_else, is_some, is_nil, checked,
  checked-at, length, take, drop, length-append, take-append-drop, length-take, length-drop, any,
  all, All, All-append, u64_mod, u64_max, u128_max, sat_add, sat_mul, wrap_add, wrap_sub, Text,
  codes, text_eq, text_eq_iff,
}
use eden_logger.Level.{LogLevel, LogAudience, level_as_str, audience_as_str}
use eden_logger.Decimal.{ℤ, pos, negsuc}
use eden_logger.Decimal.Printer.{print}
use eden_logger.Timestamp.{DateTime}
use eden_logger.Context.Additional.{Entries}
use eden_logger.Context.{
  Field, write_str, write_u64, write_i64, write_bool, write_display, RequestFields,
}
use eden_logger.Record.{EdenLog, concat}
use eden_logger.Export.Mapper.{severity_number, record_ids}

pub data AnyValue : Type 0 where
  string_value : Text → AnyValue
  int_value : ℤ → AnyValue
  bool_value : Bool → AnyValue

abbrev pub Attributes : Type 0
Attributes = List (Text × AnyValue)

-- the order of texts by their bytes
unfoldable pub text_ltb : Text → Text → Bool
text_ltb s [] = false
text_ltb [] (b ∷ t) = true
text_ltb (a ∷ s) (b ∷ t) = let rest = text_ltb s t in if ltb a b then true else a == b && rest

-- `BTreeMap::insert`
unfoldable pub insert_attribute : Attributes → Text → AnyValue → Attributes
insert_attribute [] key value = (key, value) ∷ []
insert_attribute ((k, v) ∷ m) key value =
    let rest = insert_attribute m key value in
    if text_eq k key
    then (key, value) ∷ m
    else if text_ltb key k
    then (key, value) ∷ (k, v) ∷ m
    else (k, v) ∷ rest

unfoldable pub insert_string : Attributes → Text → Text → Attributes
insert_string m key value = insert_attribute m key (string_value value)

unfoldable pub insert_optional_string : Attributes → Text → Option Text → Attributes
insert_optional_string m key none = m
insert_optional_string m key (some value) = insert_string m key value

-- `if let Some(line) = log.line`
unfoldable pub insert_line : Attributes → Option ℕ → Attributes
insert_line m none = m
insert_line m (some line) = insert_attribute m (codes "code.line.number") (int_value (pos line))

-- the loop over the additional values
unfoldable pub insert_additional : Attributes → Entries → Attributes
insert_additional m [] = m
insert_additional m ((key, value) ∷ entries) =
    insert_additional (insert_attribute m key (string_value value)) entries

-- `i64::try_from(value).map(int_value).unwrap_or_else(…)`
unfoldable pub u64_value : ℕ → AnyValue
u64_value value =
    if ltb value (2 ^ 63) then int_value (pos value) else string_value (print value value)

-- `AttributeWriter`; a `Display` value goes through the default of the trait
unfoldable pub write_attribute : Attributes → Field → Attributes
write_attribute m (write_str key value) = insert_attribute m key (string_value value)
write_attribute m (write_u64 key value) = insert_attribute m key (u64_value value)
write_attribute m (write_i64 key value) = insert_attribute m key (int_value value)
write_attribute m (write_bool key value) = insert_attribute m key (bool_value value)
write_attribute m (write_display key chunks) = insert_attribute m key (string_value (concat chunks))

unfoldable pub write_attributes : Attributes → List Field → Attributes
write_attributes m [] = m
write_attributes m (field ∷ fields) = write_attributes (write_attribute m field) fields

-- `for attribute in extra_attributes`
unfoldable pub insert_extra : Attributes → List (Text × Option AnyValue) → Attributes
insert_extra m [] = m
insert_extra m ((key, none) ∷ extra) = insert_extra m extra
insert_extra m ((key, some value) ∷ extra) = insert_extra (insert_attribute m key value) extra

-- `if trace_id.is_none()` and `if span_id.is_none()`
unfoldable pub insert_unless : Attributes → Bool → Text → Option Text → Attributes
insert_unless m true key value = m
insert_unless m false key value = insert_optional_string m key value

pub record LogRecord : Type 0 where
  pub time_unix_nano : ℕ
  pub observed_time_unix_nano : ℕ
  pub severity : ℕ
  pub severity_text : Text
  pub body : AnyValue
  pub attributes : Attributes
  pub trace_id : List ℕ
  pub span_id : List ℕ

-- `timestamp_nanos` of what `timestamp_nanos_opt` gives
unfoldable pub timestamp_nanos : Option ℤ → ℕ
timestamp_nanos none = 0
timestamp_nanos (some (pos n)) = n
timestamp_nanos (some (negsuc n)) = 0

unfoldable pub id_bytes : Option (List ℕ) → List ℕ
id_bytes none = []
id_bytes (some id) = id

module _ {R : Type 0} where
  -- the intrinsic fields of the record
  unfoldable pub insert_intrinsic : Attributes → EdenLog R → Attributes
  insert_intrinsic m log =
      let (trace, span) = record_ids log.trace_id log.span_id in
      let m1 = insert_string m (codes "eden.audience") (audience_as_str log.audience) in
      let m2 = insert_optional_string m1 (codes "eden.feature") log.feature in
      let m3 = insert_optional_string m2 (codes "code.function.name") log.function in
      let m4 = insert_optional_string m3 (codes "code.file.path") log.file in
      let m5 = insert_line m4 log.line in
      let m6 = insert_optional_string m5 (codes "error.code") log.error_code in
      let m7 = insert_optional_string m6 (codes "error.type") log.error_category in
      let m8 = insert_unless m7 (is_some trace) (codes "eden.trace_id") log.trace_id in
      insert_unless m8 (is_some span) (codes "eden.span_id") log.span_id

  unfoldable pub attributes_of :
      RequestFields R → EdenLog R → List (Text × Option AnyValue) → Attributes
  attributes_of fields log extra =
      insert_intrinsic
        (insert_extra
          (write_attributes (insert_additional [] log.additional) (fields.json_fields log.request))
          extra)
        log

  -- `map_with_attributes`; `nanos` is `timestamp_nanos_opt` of the `chrono` package
  unfoldable pub map_with_attributes :
      RequestFields R
      → (DateTime → Option ℤ)
      → EdenLog R
      → ℕ
      → List (Text × Option AnyValue)
      → LogRecord
  map_with_attributes fields nanos log observed extra = record {
    time_unix_nano = timestamp_nanos (nanos log.timestamp);
    observed_time_unix_nano = observed;
    severity = severity_number log.level;
    severity_text = level_as_str log.level;
    body = string_value log.message;
    attributes = attributes_of fields log extra;
    trace_id = id_bytes (record_ids log.trace_id log.span_id).0;
    span_id = id_bytes (record_ids log.trace_id log.span_id).1;
  }

  -- `map`
  unfoldable pub map_log : RequestFields R → (DateTime → Option ℤ) → EdenLog R → ℕ → LogRecord
  map_log fields nanos log observed = map_with_attributes fields nanos log observed []
