-- ===== src/Export/Mapper/Attributes/Precedence.antt =====
-- Which of the values of an attribute an exported record has, in
-- crates/eden_logger_export/src/mapper.rs.
use eden_logger.Base.{
  or_else_assoc, or_else-none, ℕ, ◌≡◌, refl, sym, ap, ◌∙◌, inl, inr, Bool, true, false, Option,
  none, some, List, [], ◌∷◌, ◌++◌, map, arith, if◌then◌else◌, Bool-cases, or_else, is_some, Text,
  codes, text_eq, text_eq_iff,
}
use eden_logger.Level.{audience_as_str}
use eden_logger.Decimal.{ℤ, pos}
use eden_logger.Timestamp.{DateTime}
use eden_logger.Context.Additional.{Entries, text_eq_apart}
use eden_logger.Context.{
  Field, write_str, write_u64, write_i64, write_bool, write_display, RequestFields,
}
use eden_logger.Record.{EdenLog, concat}
use eden_logger.Export.Mapper.{record_ids}
use eden_logger.Export.Mapper.Attributes.{
  AnyValue, string_value, int_value, bool_value, Attributes, text_ltb, insert_attribute,
  insert_string, insert_optional_string, insert_line, insert_additional, u64_value, write_attribute,
  write_attributes, insert_extra, insert_unless, insert_intrinsic, attributes_of,
  map_with_attributes,
}

unfoldable pub attribute : Text → Attributes → Option AnyValue
attribute key [] = none
attribute key ((k, v) ∷ m) = if text_eq k key then some v else attribute key m

-- the value under a key that is written last
unfoldable pub latest : Text → Attributes → Option AnyValue
latest key [] = none
latest key ((k, v) ∷ writes) = or_else (latest key writes) (if text_eq k key then some v else none)

-- Inserting `writes` into a map gives the other, as far as can be read under a key.
Writes : Attributes → Attributes → Attributes → Type 0
Writes m writes m' = (k : Text) → attribute k m' ≡ or_else (latest k writes) (attribute k m)

attribute-insert :
    (m : Attributes) (key : Text) (v : AnyValue) (k : Text)
    → attribute k (insert_attribute m key v) ≡ (if text_eq key k then some v else attribute k m)
unfolding attribute insert_attribute
attribute-insert [] key v k = refl
attribute-insert ((j, w) ∷ m) key v k = elim (Bool-cases (text_eq j key)) [
  | inl same ↦ rw (same, (text_eq_iff j key).0 same) (ground arith)
  | inr other ↦ elim (Bool-cases (text_ltb key j)) [
    | inl before ↦ rw (other, before) refl
    | inr behind ↦
        rw (other, behind, attribute-insert m key v k) (ground (arith, text_eq_apart j key k other))
  ]
]

latest-append :
    (k : Text) (ws vs : Attributes) → latest k (ws ++ vs) ≡ or_else (latest k vs) (latest k ws)
unfolding latest
latest-append k [] vs = ground arith
latest-append k ((j, w) ∷ ws) vs =
    rw (latest-append k ws vs)
      (sym (or_else_assoc (latest k vs) (latest k ws) (if text_eq j k then some w else none)))

Writes-nil : (m : Attributes) → Writes m [] m
unfolding Writes latest
Writes-nil m k = refl

Writes-append :
    (m m' m'' : Attributes) (ws vs : Attributes)
    → Writes m ws m'
    → Writes m' vs m''
    → Writes m (ws ++ vs) m''
unfolding Writes
Writes-append m m' m'' ws vs first second k =
    second k
    ∙ ap (or_else (latest k vs)) (first k)
    ∙ or_else_assoc (latest k vs) (latest k ws) (attribute k m)
    ∙ ap (λ o. or_else o (attribute k m)) (sym (latest-append k ws vs))

Writes-insert :
    (m : Attributes) (key : Text) (v : AnyValue)
    → Writes m ((key, v) ∷ []) (insert_attribute m key v)
unfolding Writes latest
Writes-insert m key v k = attribute-insert m key v k ∙ ground arith

abbrev pub additional_writes : Entries → Attributes
additional_writes [] = []
additional_writes ((k, v) ∷ entries) = (k, string_value v) ∷ additional_writes entries

Writes-additional :
    (m : Attributes) (entries : Entries)
    → Writes m (additional_writes entries) (insert_additional m entries)
unfolding insert_additional
Writes-additional m [] = Writes-nil m
Writes-additional m ((k, v) ∷ entries) =
    Writes-append m _ _ ((k, string_value v) ∷ []) (additional_writes entries)
      (Writes-insert m k (string_value v))
      (Writes-additional (insert_attribute m k (string_value v)) entries)

abbrev pub field_write : Field → Text × AnyValue
field_write (write_str key value) = (key, string_value value)
field_write (write_u64 key value) = (key, u64_value value)
field_write (write_i64 key value) = (key, int_value value)
field_write (write_bool key value) = (key, bool_value value)
field_write (write_display key chunks) = (key, string_value (concat chunks))

Writes-field : (m : Attributes) (f : Field) → Writes m (field_write f ∷ []) (write_attribute m f)
unfolding write_attribute
Writes-field m (write_str key value) = Writes-insert m key (string_value value)
Writes-field m (write_u64 key value) = Writes-insert m key (u64_value value)
Writes-field m (write_i64 key value) = Writes-insert m key (int_value value)
Writes-field m (write_bool key value) = Writes-insert m key (bool_value value)
Writes-field m (write_display key chunks) = Writes-insert m key (string_value (concat chunks))

Writes-fields :
    (m : Attributes) (fs : List Field) → Writes m (map field_write fs) (write_attributes m fs)
unfolding write_attributes
Writes-fields m [] = Writes-nil m
Writes-fields m (f ∷ fs) =
    Writes-append m _ _ (field_write f ∷ []) (map field_write fs) (Writes-field m f)
      (Writes-fields (write_attribute m f) fs)

abbrev pub extra_writes : List (Text × Option AnyValue) → Attributes
extra_writes [] = []
extra_writes ((key, none) ∷ extra) = extra_writes extra
extra_writes ((key, some value) ∷ extra) = (key, value) ∷ extra_writes extra

Writes-extra :
    (m : Attributes) (extra : List (Text × Option AnyValue))
    → Writes m (extra_writes extra) (insert_extra m extra)
unfolding insert_extra
Writes-extra m [] = Writes-nil m
Writes-extra m ((key, none) ∷ extra) = Writes-extra m extra
Writes-extra m ((key, some v) ∷ extra) =
    Writes-append m _ _ ((key, v) ∷ []) (extra_writes extra) (Writes-insert m key v)
      (Writes-extra (insert_attribute m key v) extra)

abbrev pub optional_write : Text → Option Text → Attributes
optional_write key none = []
optional_write key (some value) = (key, string_value value) ∷ []

Writes-optional :
    (m : Attributes) (key : Text) (o : Option Text)
    → Writes m (optional_write key o) (insert_optional_string m key o)
unfolding insert_optional_string insert_string
Writes-optional m key none = Writes-nil m
Writes-optional m key (some v) = Writes-insert m key (string_value v)

abbrev pub line_write : Option ℕ → Attributes
line_write none = []
line_write (some line) = (codes "code.line.number", int_value (pos line)) ∷ []

Writes-line : (m : Attributes) (o : Option ℕ) → Writes m (line_write o) (insert_line m o)
unfolding insert_line
Writes-line m none = Writes-nil m
Writes-line m (some line) = Writes-insert m (codes "code.line.number") (int_value (pos line))

abbrev pub write_unless : Bool → Text → Option Text → Attributes
write_unless true key o = []
write_unless false key o = optional_write key o

Writes-unless :
    (m : Attributes) (b : Bool) (key : Text) (o : Option Text)
    → Writes m (write_unless b key o) (insert_unless m b key o)
unfolding insert_unless
Writes-unless m true key o = Writes-nil m
Writes-unless m false key o = Writes-optional m key o

module _ {R : Type 0} where
  -- the attributes of the fields that every record has: an id that is no valid id becomes a text
  unfoldable pub intrinsic_writes : EdenLog R → Attributes
  intrinsic_writes log =
      let (trace, span) = record_ids log.trace_id log.span_id in
      (codes "eden.audience", string_value (audience_as_str log.audience)) ∷ []
      ++ optional_write (codes "eden.feature") log.feature
      ++ optional_write (codes "code.function.name") log.function
      ++ optional_write (codes "code.file.path") log.file
      ++ line_write log.line
      ++ optional_write (codes "error.code") log.error_code
      ++ optional_write (codes "error.type") log.error_category
      ++ write_unless (is_some trace) (codes "eden.trace_id") log.trace_id
      ++ write_unless (is_some span) (codes "eden.span_id") log.span_id

  Writes-intrinsic :
      (m : Attributes) (log : EdenLog R) → Writes m (intrinsic_writes log) (insert_intrinsic m log)
  unfolding insert_intrinsic intrinsic_writes insert_string
  Writes-intrinsic m log =
      let (trace, span) = record_ids log.trace_id log.span_id in
      let p1 =
        Writes-insert m (codes "eden.audience") (string_value (audience_as_str log.audience)) in
      let p2 = Writes-append _ _ _ _ _ p1 (Writes-optional _ (codes "eden.feature") log.feature) in
      let p3 =
        Writes-append _ _ _ _ _ p2 (Writes-optional _ (codes "code.function.name") log.function) in
      let p4 = Writes-append _ _ _ _ _ p3 (Writes-optional _ (codes "code.file.path") log.file) in
      let p5 = Writes-append _ _ _ _ _ p4 (Writes-line _ log.line) in
      let p6 = Writes-append _ _ _ _ _ p5 (Writes-optional _ (codes "error.code") log.error_code) in
      let p7 =
        Writes-append _ _ _ _ _ p6 (Writes-optional _ (codes "error.type") log.error_category) in
      let p8 =
        Writes-append _ _ _ _ _ p7
          (Writes-unless _ (is_some trace) (codes "eden.trace_id") log.trace_id) in
      Writes-append _ _ _ _ _ p8 (Writes-unless _ (is_some span) (codes "eden.span_id") log.span_id)

  -- The value that an exported record has under a key is the intrinsic one, where the record has
  -- that field; otherwise the latest of the supplied ones that have a value; otherwise the latest
  -- of the request fields; and otherwise the additional value.
  pub map_with_attributes_lem :
      (fields : RequestFields R) (nanos : DateTime → Option ℤ) (log : EdenLog R) (observed : ℕ)
      (extra : List (Text × Option AnyValue)) (key : Text)
      → attribute key (map_with_attributes fields nanos log observed extra).attributes
        ≡ or_else (latest key (intrinsic_writes log)) (
            or_else (latest key (extra_writes extra)) (
              or_else
                (latest key (map field_write (fields.json_fields log.request)))
                (latest key (additional_writes log.additional))))
  unfolding map_with_attributes attributes_of Writes
  map_with_attributes_lem fields nanos log observed extra key =
      let requests = fields.json_fields log.request in
      let m1 = insert_additional [] log.additional in
      let m2 = write_attributes m1 requests in
      let m3 = insert_extra m2 extra in
      Writes-intrinsic m3 log key
      ∙ ap (or_else (latest key (intrinsic_writes log))) (
          Writes-extra m2 extra key
          ∙ ap (or_else (latest key (extra_writes extra))) (
              Writes-fields m1 requests key
              ∙ ap (or_else (latest key (map field_write requests))) (
                  Writes-additional [] log.additional key
                  ∙ unfold attribute in
                    or_else-none (latest key (additional_writes log.additional)))))
