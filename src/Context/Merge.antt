-- ===== src/Context/Merge.antt =====
-- What merging contexts gives, and the ids that a record takes from its context, for
-- crates/eden_logger/src/context.rs and `effective_trace_context` of crates/eden_logger/src/schema.rs.
use eden_logger.Base.{
  ◌≡◌, refl, inl, inr, Option, none, some, [], arith, Option-cases, or_else, Text,
}
use eden_logger.Context.Additional.{Entries, get, IsMap, IterationOrder, get-extend, extend-IsMap}
use eden_logger.Context.{
  RequestFields, LogContext, set_over, or_empty, merge_additional, merge, with_fresh_span,
  effective_trace_context,
}

set_over-or_else {ℓ} : {A : Type ℓ} (a b : Option A) → set_over a b ≡ or_else a b
unfolding set_over
set_over-or_else none b = refl
set_over-or_else (some a) b = refl

module _ ⦃o : IterationOrder⦄ where
  get-merge_additional :
      (k : Text) (mine other : Option Entries)
      → IsMap (or_empty mine)
      → IsMap (or_empty other)
      → get k (or_empty (merge_additional mine other))
        ≡ or_else (get k (or_empty other)) (get k (or_empty mine))
  unfolding merge_additional or_empty
  get-merge_additional k mine none g h = unfold get in refl
  get-merge_additional k none (some m) g h = get-extend k [] m g h
  get-merge_additional k (some n) (some m) g h = get-extend k n m g h

  merge_additional-IsMap :
      (mine other : Option Entries)
      → IsMap (or_empty mine)
      → IsMap (or_empty other)
      → IsMap (or_empty (merge_additional mine other))
  unfolding merge_additional or_empty
  merge_additional-IsMap mine none h g = h
  merge_additional-IsMap none (some m) h g = extend-IsMap [] m h
  merge_additional-IsMap (some n) (some m) h g = extend-IsMap n m h

module _ {R : Type 0} ⦃o : IterationOrder⦄ where
  -- the additional value under a key
  abbrev pub lookup : Text → LogContext R → Option Text
  lookup k c = get k (or_empty c.additional)

  -- no key stands twice in the additional values
  abbrev pub HasMap : LogContext R → Type 0
  HasMap c = IsMap (or_empty c.additional)

  pub lookup-merge :
      (fields : RequestFields R) (k : Text) (c other : LogContext R)
      → HasMap c
      → HasMap other
      → lookup k (merge fields c other) ≡ or_else (lookup k other) (lookup k c)
  unfolding merge
  lookup-merge fields k c other g h = get-merge_additional k c.additional other.additional g h

  merge-HasMap :
      (fields : RequestFields R) (c other : LogContext R)
      → HasMap c
      → HasMap other
      → HasMap (merge fields c other)
  unfolding merge
  merge-HasMap fields c other h g = merge_additional-IsMap c.additional other.additional h g

  -- What merging `other` into `c` gives.
  pub record IsMerged (fields : RequestFields R) (c other merged : LogContext R) : Type 0 where
    pub trace_id : merged.trace_id ≡ or_else other.trace_id c.trace_id
    pub span_id : merged.span_id ≡ or_else other.span_id c.span_id
    pub feature : merged.feature ≡ or_else other.feature c.feature
    pub function : merged.function ≡ or_else other.function c.function
    pub error_code : merged.error_code ≡ or_else other.error_code c.error_code
    pub error_category : merged.error_category ≡ or_else other.error_category c.error_category
    pub request : merged.request ≡ fields.merge_request c.request other.request
    pub additional : (k : Text) → lookup k merged ≡ or_else (lookup k other) (lookup k c)
    pub keys_once : HasMap merged

  -- Merging a context into another one, neither with a key twice among its additional values,
  -- overrides it: each of the six optional fields and the value under each additional key is that of
  -- the merged context where it has one and that of the other one otherwise, the request fields are
  -- merged, and no additional key stands twice. It is so whatever the order in which the maps are
  -- iterated.
  pub merge_lem :
      (fields : RequestFields R) (c other : LogContext R)
      → HasMap c
      → HasMap other
      → IsMerged fields c other (merge fields c other)
  unfolding merge
  merge_lem fields c other g h = record {
    trace_id = set_over-or_else other.trace_id c.trace_id;
    span_id = set_over-or_else other.span_id c.span_id;
    feature = set_over-or_else other.feature c.feature;
    function = set_over-or_else other.function c.function;
    error_code = set_over-or_else other.error_code c.error_code;
    error_category = set_over-or_else other.error_category c.error_category;
    request = refl;
    additional = λ k. lookup-merge fields k c other g h;
    keys_once = merge-HasMap fields c other g h;
  }

  -- A record takes each of the two ids from its context where that has it and from the current span
  -- otherwise. So a context with a trace id of which the span is cleared for a fresh one gives a
  -- record the trace id of the context and the span id of the span that is current, whatever trace
  -- that belongs to.
  effective_trace_context-with_fresh_span :
      (c : LogContext R) (current : Option Text × Option Text)
      → (effective_trace_context c current
          ≡ (or_else c.trace_id current.0, or_else c.span_id current.1))
        × (effective_trace_context (with_fresh_span c) current
            ≡ (or_else c.trace_id current.0, current.1))
  unfolding effective_trace_context with_fresh_span
  effective_trace_context-with_fresh_span c current = elim (Option-cases c.trace_id) [
    | inl none_t ↦ ground arith
    | inr (t, some_t) ↦ elim (Option-cases c.span_id) [
      | inl none_s ↦ ground arith
      | inr (s, some_s) ↦ ground arith
    ]
  ]
