-- ===== src/Context.antt =====
-- The log context of crates/eden_logger/src/context.rs and the request fields of
-- crates/eden_logger/src/fields.rs. A `HashMap` is the list of its entries in the order of its
-- iteration, which an `IterationOrder` decides.
pub mod Additional
pub mod Merge
mod Tests
use eden_logger.Base.{
  ℕ, zero, suc, ◌+◌, ◌-◌, ◌*◌, ◌/◌, ◌%◌, ◌^◌, ◌≤◌, ◌<◌, min, max, bit_and, bit_or, ◌≡◌, refl, sym,
  ap, ◌∙◌, subst, ◌≢◌, ◌↔◌, ◌⊎◌, inl, inr, Bool, true, false, ◌&&◌, ◌||◌, not, Option, none, some,
  List, [], ◌∷◌, ◌++◌, map, append-nil, append_assoc, arith, ltb, leb, ◌==◌, if◌then◌else◌, ltb→lt,
  lt→ltb, leb→le, ==_iff, Bool-cases, Option-cases, ◌>>=◌, or_else, is_some, is_nil, checked,
  checked-at, length, take, drop, length-append, take-append-drop, length-take, length-drop, any,
  all, All, All-append, u64_mod, u64_max, u128_max, sat_add, sat_mul, wrap_add, wrap_sub, Text,
  codes, text_eq, text_eq_iff,
}
use eden_logger.Decimal.{ℤ}
use eden_logger.Context.Additional.{Entries, IterationOrder, insert, extend}
use eden_logger.Trace.{extract_trace_context}

-- The calls that a request schema makes on a `FieldWriter`; a `Display` value is the chunks that it
-- writes.
pub data Field : Type 0 where
  write_str : Text → Text → Field
  write_u64 : Text → ℕ → Field
  write_i64 : Text → ℤ → Field
  write_bool : Text → Bool → Field
  write_display : Text → List Text → Field

-- The trait `RequestFields`, which the application implements.
pub record RequestFields (R : Type 0) : Type 0 where
  pub default : R
  pub display_fields : R → List Field
  pub json_fields : R → List Field
  pub merge_request : R → R → R
  pub request_size : R → ℕ

pub record LogContext (R : Type 0) : Type 0 where
  pub trace_id : Option Text
  pub span_id : Option Text
  pub feature : Option Text
  pub function : Option Text
  pub error_code : Option Text
  pub error_category : Option Text
  pub request : R
  pub additional : Option Entries

-- `other.x` where it is set, as in `if other.x.is_some() { self.x = other.x }`
unfoldable pub set_over {ℓ} : {A : Type ℓ} → Option A → Option A → Option A
set_over (some a) old = some a
set_over none old = old

-- `get_or_insert_with(|| Box::new(HashMap::new()))`
unfoldable pub or_empty : Option Entries → Entries
or_empty (some m) = m
or_empty none = []

unfoldable pub merge_additional :
    ⦃o : IterationOrder⦄ → Option Entries → Option Entries → Option Entries
merge_additional mine none = mine
merge_additional mine (some m) = some (extend (or_empty mine) m)

module _ {R : Type 0} where
  -- `LogContext::new` and `empty`, the derived default
  unfoldable pub new_context : RequestFields R → LogContext R
  new_context fields = record {
    trace_id = none;
    span_id = none;
    feature = none;
    function = none;
    error_code = none;
    error_category = none;
    request = fields.default;
    additional = none;
  }

  unfoldable pub with_trace_id : LogContext R → Text → LogContext R
  with_trace_id c id = record c { trace_id = some id }

  unfoldable pub with_span_id : LogContext R → Text → LogContext R
  with_span_id c id = record c { span_id = some id }

  unfoldable pub with_feature : LogContext R → Text → LogContext R
  with_feature c name = record c { feature = some name }

  unfoldable pub with_function : LogContext R → Text → LogContext R
  with_function c name = record c { function = some name }

  unfoldable pub with_error_code : LogContext R → Text → LogContext R
  with_error_code c code = record c { error_code = some code }

  unfoldable pub with_error_category : LogContext R → Text → LogContext R
  with_error_category c category = record c { error_category = some category }

  unfoldable pub with_request : LogContext R → R → LogContext R
  with_request c r = record c { request = r }

  unfoldable pub map_request : LogContext R → (R → R) → LogContext R
  map_request c f = record c { request = f c.request }

  unfoldable pub with_additional : ⦃o : IterationOrder⦄ → LogContext R → Text → Text → LogContext R
  with_additional c key value = record c {
    additional = some (insert key value (or_empty c.additional));
  }

  unfoldable pub with_fresh_span : LogContext R → LogContext R
  with_fresh_span c = record c { span_id = none }

  unfoldable pub merge :
      ⦃o : IterationOrder⦄ → RequestFields R → LogContext R → LogContext R → LogContext R
  merge fields c other = record {
    trace_id = set_over other.trace_id c.trace_id;
    span_id = set_over other.span_id c.span_id;
    feature = set_over other.feature c.feature;
    function = set_over other.function c.function;
    error_code = set_over other.error_code c.error_code;
    error_category = set_over other.error_category c.error_category;
    request = fields.merge_request c.request other.request;
    additional = merge_additional c.additional other.additional;
  }

  -- `effective_trace_context`; `current` is what `extract_trace_context` gives
  unfoldable pub effective_trace_context :
      LogContext R → Option Text × Option Text → Option Text × Option Text
  effective_trace_context c current =
      if is_some c.trace_id && is_some c.span_id
      then (c.trace_id, c.span_id)
      else (or_else c.trace_id current.0, or_else c.span_id current.1)

  unfoldable pub with_ids : LogContext R → Option Text × Option Text → LogContext R
  with_ids c (none, none) = c
  with_ids c (none, some span) = with_span_id c span
  with_ids c (some trace, none) = with_trace_id c trace
  with_ids c (some trace, some span) = with_span_id (with_trace_id c trace) span

  -- `trace_context`; `current` is what `extract_trace_context` gives
  unfoldable pub trace_context : RequestFields R → Option Text × Option Text → LogContext R
  trace_context fields current = with_ids (new_context fields) current

  -- `TraceContextExt::with_trace_context`
  unfoldable pub with_trace_context : LogContext R → Option Text × Option Text → LogContext R
  with_trace_context c current = with_ids c current
