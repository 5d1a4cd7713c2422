-- ===== src/Export/Mapper.antt =====
-- The severity numbers and the decoding of ids of crates/eden_logger_export/src/mapper.rs. An id is a
-- text of bytes.
pub mod Ids
pub mod Attributes
mod Tests
use eden_logger.Level.{LogLevel, trace, debug, info, warn, error}
use eden_logger.Base.{
  ℕ, zero, suc, ◌+◌, ◌-◌, ◌*◌, ◌/◌, ◌%◌, ◌^◌, ◌≤◌, ◌<◌, min, max, bit_and, bit_or, ◌≡◌, refl, sym,
  ap, ◌∙◌, subst, ◌≢◌, ◌↔◌, ◌⊎◌, inl, inr, Bool, true, false, ◌&&◌, ◌||◌, not, Option, none, some,
  List, [], ◌∷◌, ◌++◌, map, append-nil, append_assoc, arith, ltb, leb, ◌==◌, if◌then◌else◌, ltb→lt,
  lt→ltb, leb→le, ==_iff, Bool-cases, Option-cases, ◌>>=◌, or_else, is_some, is_nil, length, take,
  drop, length-append, take-append-drop, length-take, length-drop, any, all, All, All-append,
  u64_mod, u64_max, u128_max, sat_add, sat_mul, wrap_add, wrap_sub, Text, codes, text_eq,
  text_eq_iff,
}

unfoldable pub severity_number : LogLevel → ℕ
severity_number trace = 1
severity_number debug = 5
severity_number info = 9
severity_number warn = 13
severity_number error = 17

unfoldable pub hex_nibble : ℕ → Option ℕ
hex_nibble value =
    if leb b'0' value && leb value b'9'
    then some (value - b'0')
    else if leb b'a' value && leb value b'f'
    then some (value - b'a' + 10)
    else if leb b'A' value && leb value b'F'
    then some (value - b'A' + 10)
    else none

-- One byte: `(high << 4) | low`
unfoldable pub decode_pair : ℕ → ℕ → Option ℕ
decode_pair high low = do h ← hex_nibble high; l ← hex_nibble low; some (bit_or (h * 16 % 256) l)

-- The loop over the pairs of bytes.
unfoldable pub decode_pairs : Text → Option (List ℕ)
decode_pairs [] = some []
decode_pairs (a ∷ []) = some []
decode_pairs (a ∷ b ∷ text) = do
  byte ← decode_pair a b
  bytes ← decode_pairs text
  some (byte ∷ bytes)

unfoldable pub nonzero : List ℕ → Option (List ℕ)
nonzero output = if all (λ byte. byte == 0) output then none else some output

-- `decode_hex_id` for ids of `size` bytes
unfoldable pub decode_hex_id : ℕ → Option Text → Option (List ℕ)
decode_hex_id size value = do
  text ← value
  if length text == size * 2 then decode_pairs text >>= nonzero else none

-- The ids of a record: a span id counts only with a valid trace id.
unfoldable pub record_ids : Option Text → Option Text → Option (List ℕ) × Option (List ℕ)
record_ids trace_id span_id =
    let trace_bytes = decode_hex_id 16 trace_id in
    (trace_bytes, if is_some trace_bytes then decode_hex_id 8 span_id else none)
