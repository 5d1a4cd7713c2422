-- ===== src/Json.antt =====
-- The JSON string escaping of crates/eden_logger/src/schema.rs. A text is its bytes in UTF-8; a
-- function gives the bytes that the source appends to its buffer.
pub mod Reader
pub mod Escape
pub mod RoundTrip
mod Tests
use eden_logger.Base.{
  ℕ, zero, suc, ◌+◌, ◌-◌, ◌*◌, ◌/◌, ◌%◌, ◌^◌, ◌≤◌, ◌<◌, min, max, bit_and, bit_or, ◌≡◌, refl, sym,
  ap, ◌∙◌, subst, ◌≢◌, ◌↔◌, ◌⊎◌, inl, inr, Bool, true, false, ◌&&◌, ◌||◌, not, Option, none, some,
  List, [], ◌∷◌, ◌++◌, map, append-nil, append_assoc, arith, ltb, leb, ◌==◌, if◌then◌else◌, ltb→lt,
  lt→ltb, leb→le, ==_iff, Bool-cases, Option-cases, ◌>>=◌, or_else, is_some, is_nil, length, take,
  drop, length-append, take-append-drop, length-take, length-drop, any, all, All, All-append,
  u64_mod, u64_max, u128_max, sat_add, sat_mul, wrap_add, wrap_sub, Text, codes, text_eq,
  text_eq_iff,
}
use eden_logger.Trace.{hex_char}

-- `JSON_ESCAPE_TABLE[b]`
unfoldable pub needs_escape : ℕ → Bool
needs_escape b = ltb b 32 || b == b'"' || b == b'\\'

-- `buf.push(b as char)`: the character U+00b, in UTF-8
unfoldable pub push_char : ℕ → Text
push_char b = if ltb b 128 then b ∷ [] else (192 + b / 64) ∷ (128 + b % 64) ∷ []

-- the `match` on a byte in the slow path
unfoldable pub escape_byte : ℕ → Text
unfolding push_char
escape_byte b =
    if b == b'"'
    then codes "\\\""
    else if b == b'\\'
    then codes "\\\\"
    else if b == b'\n'
    then codes "\\n"
    else if b == b'\r'
    then codes "\\r"
    else if b == b'\t'
    then codes "\\t"
    else if ltb b 32
    then codes "\\u00" ++ hex_char (b / 16) ∷ hex_char (b % 16) ∷ []
    else push_char b

-- `for &b in bytes`
unfoldable pub escape_bytes : Text → Text
escape_bytes [] = []
escape_bytes (b ∷ t) = escape_byte b ++ escape_bytes t

unfoldable pub write_json_escaped : Text → Text
write_json_escaped t = if not (any needs_escape t) then t else escape_bytes t

-- `JsonEscapingWriter`, to which `write!` hands a value in chunks
unfoldable pub write_escaped_chunks : List Text → Text
write_escaped_chunks [] = []
write_escaped_chunks (t ∷ chunks) = write_json_escaped t ++ write_escaped_chunks chunks
