-- ===== src/Record/Size.antt =====
-- `EdenLog::estimated_size_bytes` of crates/eden_logger/src/schema.rs: the sizes of the types and
-- the capacities that the record has allocated are parameters.
use eden_logger.Base.{
  ℕ, ◌+◌, ◌-◌, ◌*◌, ◌<◌, min, ◌≡◌, ◌∙◌, Option, none, some, List, [], ◌∷◌, arith, length, u64_max,
  sat_add, sat_mul, Text,
}
use eden_logger.Context.Additional.{Entries}
use eden_logger.Context.{RequestFields}
use eden_logger.Record.{EdenLog}

-- `size_of_val` of the record, of its request fields and of a pair of texts, and the capacities of
-- its message and of its map
pub record Layout : Type 0 where
  pub record_size : ℕ
  pub request_inline : ℕ
  pub pair_size : ℕ
  pub message_capacity : ℕ
  pub additional_capacity : ℕ

-- the loop over the optional texts
unfoldable pub add_texts : ℕ → List (Option Text) → ℕ
add_texts bytes [] = bytes
add_texts bytes (none ∷ values) = add_texts bytes values
add_texts bytes (some value ∷ values) = add_texts (sat_add bytes (length value)) values

-- the loop over the additional values
unfoldable pub add_entries : ℕ → Entries → ℕ
add_entries bytes [] = bytes
add_entries bytes ((key, value) ∷ m) =
    add_entries (sat_add (sat_add bytes (length key)) (length value)) m

module _ {R : Type 0} where
  abbrev pub optional_texts : EdenLog R → List (Option Text)
  optional_texts log =
      log.trace_id ∷ log.span_id ∷ log.feature ∷ log.function ∷ log.file ∷ log.error_code
      ∷ log.error_category ∷ []

  unfoldable pub estimated_size_bytes : RequestFields R → Layout → EdenLog R → ℕ
  estimated_size_bytes fields layout log =
      let inline = layout.record_size - layout.request_inline in
      let bytes =
        sat_add (sat_add inline layout.message_capacity) (fields.request_size log.request) in
      let bytes' = add_texts bytes (optional_texts log) in
      let bytes'' =
        sat_add bytes' (sat_mul layout.additional_capacity (sat_add layout.pair_size 1)) in
      add_entries bytes'' log.additional

-- the lengths of texts, without saturation
abbrev text_size : Option Text → ℕ
text_size none = 0
text_size (some value) = length value

unfoldable pub total_texts : List (Option Text) → ℕ
total_texts [] = 0
total_texts (value ∷ values) = text_size value + total_texts values

unfoldable pub total_entries : Entries → ℕ
total_entries [] = 0
total_entries ((key, value) ∷ m) = length key + length value + total_entries m

add_texts-total :
    (exact : ℕ) (values : List (Option Text))
    → add_texts (min exact u64_max) values ≡ min (exact + total_texts values) u64_max
unfolding add_texts total_texts
add_texts-total exact [] = ground arith
add_texts-total exact (none ∷ values) = add_texts-total exact values ∙ ground arith
add_texts-total exact (some v ∷ values) =
    let same : sat_add (min exact u64_max) (length v) ≡ min (exact + length v) u64_max =
      omega arith in
    rw same (add_texts-total (exact + length v) values ∙ ground arith)

add_entries-total :
    (exact : ℕ) (m : Entries)
    → add_entries (min exact u64_max) m ≡ min (exact + total_entries m) u64_max
unfolding add_entries total_entries
add_entries-total exact [] = ground arith
add_entries-total exact ((k, v) ∷ m) =
    let same : sat_add (sat_add (min exact u64_max) (length k)) (length v)
        ≡ min (exact + length k + length v) u64_max =
      omega arith in
    rw same (add_entries-total (exact + length k + length v) m ∙ ground arith)

sat_add-min : (a p : ℕ) → sat_add (min a u64_max) (min p u64_max) ≡ min (a + p) u64_max
sat_add-min a p = omega arith

module _ {R : Type 0} where
  -- The bytes that a record retains, without saturation: each of its parts by itself.
  unfoldable pub retained_bytes : RequestFields R → Layout → EdenLog R → ℕ
  retained_bytes fields layout log =
      (layout.record_size - layout.request_inline)
      + layout.message_capacity
      + fields.request_size log.request
      + text_size log.trace_id
      + text_size log.span_id
      + text_size log.feature
      + text_size log.function
      + text_size log.file
      + text_size log.error_code
      + text_size log.error_category
      + layout.additional_capacity * (layout.pair_size + 1)
      + total_entries log.additional

  -- The estimate is the number of bytes that the record retains: its own size without the request
  -- fields, the capacity of its message, the size of the request fields, the lengths of those of its
  -- seven optional texts that are set (the trace and span ids, the feature, the function, the file,
  -- the error code and the error category), the slots of its map and the lengths of the additional
  -- keys and values. Where that number is beyond
  -- 64 bits, the estimate is the greatest number of 64 bits. A pair of texts is smaller than that.
  pub estimated_size_bytes_lem :
      (fields : RequestFields R) (layout : Layout) (log : EdenLog R)
      → layout.pair_size < u64_max
      → estimated_size_bytes fields layout log ≡ min (retained_bytes fields layout log) u64_max
  unfolding estimated_size_bytes retained_bytes
  estimated_size_bytes_lem fields layout log small =
      let inline = layout.record_size - layout.request_inline in
      let request = fields.request_size log.request in
      let first : sat_add (sat_add inline layout.message_capacity) request
          ≡ min (inline + layout.message_capacity + request) u64_max =
        omega arith in
      let pair : sat_add layout.pair_size 1 ≡ layout.pair_size + 1 = omega (arith, small) in
      let texts : total_texts (optional_texts log)
          ≡ text_size log.trace_id
            + text_size log.span_id
            + text_size log.feature
            + text_size log.function
            + text_size log.file
            + text_size log.error_code
            + text_size log.error_category =
        unfold total_texts in omega arith in
      rw (first, pair, add_texts-total, sat_add-min, add_entries-total) (omega (arith, texts))
