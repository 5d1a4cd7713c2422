-- ===== src/Record/Line.antt =====
-- The JSON line of crates/eden_logger/src/schema.rs as an object with the members of the record.
pub mod Tokens
pub mod Reads
pub mod OneLine
use eden_logger.Base.{
  ℕ, zero, suc, ◌+◌, ◌-◌, ◌*◌, ◌/◌, ◌%◌, ◌^◌, ◌≤◌, ◌<◌, min, max, bit_and, bit_or, ◌≡◌, refl, sym,
  ap, ◌∙◌, subst, ◌≢◌, ◌↔◌, ◌⊎◌, inl, inr, Bool, true, false, ◌&&◌, ◌||◌, not, Option, none, some,
  List, [], ◌∷◌, ◌++◌, map, append-nil, append_assoc, arith, ltb, leb, ◌==◌, if◌then◌else◌, ltb→lt,
  lt→ltb, leb→le, ==_iff, Bool-cases, Option-cases, ◌>>=◌, or_else, is_some, is_nil, checked,
  checked-at, length, take, drop, length-append, take-append-drop, length-take, length-drop, any,
  all, All, All-append, u64_mod, u64_max, u128_max, sat_add, sat_mul, wrap_add, wrap_sub, Text,
  codes, text_eq, text_eq_iff,
}
use eden_logger.Level.{
  LogLevel, trace, debug, info, warn, error, LogAudience, internal, client, both, level_as_str,
  audience_as_str,
}
use eden_logger.Decimal.{ℤ, Itoa}
use eden_logger.Json.{needs_escape, write_json_escaped, write_escaped_chunks}
use eden_logger.Context.Additional.{Entries}
use eden_logger.Context.{
  Field, write_str, write_u64, write_i64, write_bool, write_display, RequestFields, LogContext,
  or_empty, effective_trace_context,
}
use eden_logger.Record.{Pairs}
use eden_logger.Record.Json.{
  write_json_field, write_json_fields, json_field, json_entries, json_pairs, json_location,
  json_line,
}
use eden_logger.Record.Object.{
  Value, chunks, token, text, Member, print_value, print_member, print_members, print_rest,
  print_object,
}

unfoldable pub field_member : Itoa → Field → Member
field_member itoa (write_str key value) = (key, text value)
field_member itoa (write_u64 key value) = (key, token (itoa.unsigned value))
field_member itoa (write_i64 key value) = (key, token (itoa.signed value))
field_member itoa (write_bool key value) =
    (key, token (if value then codes "true" else codes "false"))
field_member itoa (write_display key ts) = (key, chunks ts)

unfoldable pub optional : Text → Option Text → List Member
optional key none = []
optional key (some value) = (key, text value) ∷ []

abbrev pub entry_member : Text × Text → Member
entry_member (key, value) = (key, text value)

abbrev pub pair_member : Text × List Text → Member
pair_member (key, ts) = (key, chunks ts)

unfoldable pub location_members : Itoa → Option Text → Option ℕ → List Member
location_members itoa none line = []
location_members itoa (some file) none = (codes "file", text file) ∷ []
location_members itoa (some file) (some line) =
    (codes "file", text file) ∷ (codes "line", token (itoa.unsigned line)) ∷ []

module _ {R : Type 0} where
  -- the members of a record behind its timestamp, level and audience
  unfoldable pub context_members :
      Itoa
      → RequestFields R
      → Option Text × Option Text
      → Text
      → LogContext R
      → Pairs
      → Option Text
      → Option ℕ
      → List Member
  context_members itoa fields current message context pairs file line =
      let (trace_id, span_id) = effective_trace_context context current in
      optional (codes "trace_id") trace_id
      ++ optional (codes "span_id") span_id
      ++ optional (codes "feature") context.feature
      ++ optional (codes "fn") context.function
      ++ map (field_member itoa) (fields.json_fields context.request)
      ++ optional (codes "error_code") context.error_code
      ++ optional (codes "error_category") context.error_category
      ++ map entry_member (or_empty context.additional)
      ++ map pair_member pairs
      ++ location_members itoa file line
      ++ (codes "msg", text message) ∷ []

abbrev pub head_members : LogLevel → LogAudience → List Member
head_members level audience =
    (codes "level", text (level_as_str level))
    ∷ (codes "audience", text (audience_as_str audience))
    ∷ []

print_members-append :
    (ms ns : List Member) → print_members (ms ++ ns) ≡ print_members ms ++ print_members ns
unfolding print_members
print_members-append [] ns = refl
print_members-append (m ∷ ms) ns = rw (print_members-append ms ns, append_assoc) refl

clean_lem : (t : Text) → any needs_escape t ≡ false → write_json_escaped t ≡ t
unfolding write_json_escaped
clean_lem t e = rw e refl

json_field-print :
    (key : Text) (o : Option Text)
    → any needs_escape key ≡ false
    → json_field key o ≡ print_members (optional key o)
unfolding json_field optional print_members print_member print_value write_escaped_chunks
json_field-print key none e = refl
json_field-print key (some v) e = rw (clean_lem key e) (simp (append-nil, append_assoc) refl)

write_json_fields-print :
    (itoa : Itoa) (fs : List Field)
    → write_json_fields itoa fs ≡ print_members (map (field_member itoa) fs)
unfolding write_json_fields write_json_field field_member print_members print_member print_value
    write_escaped_chunks
write_json_fields-print itoa [] = refl
write_json_fields-print itoa (write_str k v ∷ fs) =
    rw (write_json_fields-print itoa fs) (simp (append-nil, append_assoc) refl)
write_json_fields-print itoa (write_u64 k v ∷ fs) =
    rw (write_json_fields-print itoa fs) (simp append_assoc refl)
write_json_fields-print itoa (write_i64 k v ∷ fs) =
    rw (write_json_fields-print itoa fs) (simp append_assoc refl)
write_json_fields-print itoa (write_bool k v ∷ fs) =
    rw (write_json_fields-print itoa fs) (simp append_assoc refl)
write_json_fields-print itoa (write_display k ts ∷ fs) =
    rw (write_json_fields-print itoa fs) (simp append_assoc refl)

json_entries-print : (m : Entries) → json_entries m ≡ print_members (map entry_member m)
unfolding json_entries print_members print_member print_value write_escaped_chunks
json_entries-print [] = refl
json_entries-print ((k, v) ∷ m) = rw (json_entries-print m) (simp (append-nil, append_assoc) refl)

json_pairs-print : (pairs : Pairs) → json_pairs pairs ≡ print_members (map pair_member pairs)
unfolding json_pairs print_members print_member print_value
json_pairs-print [] = refl
json_pairs-print ((k, ts) ∷ pairs) = rw (json_pairs-print pairs) (simp append_assoc refl)

json_location-print :
    (itoa : Itoa) (file : Option Text) (line : Option ℕ)
    → json_location itoa file line ≡ print_members (location_members itoa file line)
unfolding json_location location_members print_members print_member print_value write_escaped_chunks
    write_json_escaped needs_escape
json_location-print itoa none line = refl
json_location-print itoa (some file) none = simp (append-nil, append_assoc) refl
json_location-print itoa (some file) (some line) = simp (append-nil, append_assoc) refl

pub level_clean : (level : LogLevel) → any needs_escape (level_as_str level) ≡ false
unfolding level_as_str needs_escape
level_clean trace = refl
level_clean debug = refl
level_clean info = refl
level_clean warn = refl
level_clean error = refl

pub audience_clean : (a : LogAudience) → any needs_escape (audience_as_str a) ≡ false
unfolding audience_as_str needs_escape
audience_clean internal = refl
audience_clean client = refl
audience_clean both = refl

string_member-print :
    (key value : Text) (ms : List Member)
    → any needs_escape key ≡ false
    → print_members ((key, text value) ∷ ms)
      ≡ codes ",\""
        ++ key
        ++ codes "\":\""
        ++ write_json_escaped value
        ++ codes "\""
        ++ print_members ms
unfolding print_members print_member print_value write_escaped_chunks
string_member-print key value ms e = rw (clean_lem key e) (simp (append-nil, append_assoc) refl)

module _ {R : Type 0} where
  pub json_line-print_object :
      (itoa : Itoa) (fields : RequestFields R) (ts : Text) (current : Option Text × Option Text)
      (level : LogLevel) (message : Text) (context : LogContext R) (audience : LogAudience)
      (pairs : Pairs) (file : Option Text) (line : Option ℕ)
      → any needs_escape ts ≡ false
      → json_line itoa fields ts current level message context audience pairs file line
        ≡ print_object (
            (codes "ts", text ts) ∷ head_members level audience
            ++ context_members itoa fields current message context pairs file line)
  unfolding json_line context_members print_object print_rest needs_escape
  json_line-print_object itoa fields ts current level message context audience pairs file line
        clean =
      let (trace_id, span_id) = effective_trace_context context current in
      simp
        (
          string_member-print (codes "ts") ts _ refl,
          clean_lem ts clean,
          string_member-print (codes "level") (level_as_str level) _ refl,
          clean_lem (level_as_str level) (level_clean level),
          string_member-print (codes "audience") (audience_as_str audience) _ refl,
          clean_lem (audience_as_str audience) (audience_clean audience),
          print_members-append,
          json_field-print (codes "trace_id") trace_id refl,
          json_field-print (codes "span_id") span_id refl,
          json_field-print (codes "feature") context.feature refl,
          json_field-print (codes "fn") context.function refl,
          json_field-print (codes "error_code") context.error_code refl,
          json_field-print (codes "error_category") context.error_category refl,
          write_json_fields-print,
          json_entries-print,
          json_pairs-print,
          json_location-print,
          string_member-print (codes "msg") message [] refl,
          append_assoc,
        )
        (unfold print_members in refl)
