-- ===== src/Json/Tests.antt =====
-- The escaping at concrete texts.
use eden_logger.Base.{◌≡◌, refl, ◌↔◌, some, [], ◌∷◌, ◌++◌, arith, codes}
use eden_logger.Json.{write_json_escaped, needs_escape, escape_bytes, escape_byte, push_char}
use eden_logger.Trace.{hex_char}
use eden_logger.Json.Reader.{read_string}
use eden_logger.Json.RoundTrip.{IsPlain, write_json_escaped_iff}

-- `é` and a quote, in UTF-8: the two bytes of `é` become four
two_chars :
    write_json_escaped (0xc3 ∷ 0xa9 ∷ b'"' ∷ []) ≡ 0xc3 ∷ 0x83 ∷ 0xc2 ∷ 0xa9 ∷ b'\\' ∷ b'"' ∷ []
unfolding write_json_escaped needs_escape escape_bytes escape_byte push_char
two_chars = refl

control : write_json_escaped (0x1f ∷ b'\n' ∷ []) ≡ codes "\\u001f\\n"
unfolding write_json_escaped needs_escape escape_bytes escape_byte push_char hex_char
control = refl

write_json_escaped_iff_example :
    (read_string (write_json_escaped (b'a' ∷ b'"' ∷ []) ++ b'"' ∷ b',' ∷ [])
      ≡ some (b'a' ∷ b'"' ∷ [], b',' ∷ []))
    ↔ IsPlain (b'a' ∷ b'"' ∷ [])
write_json_escaped_iff_example =
    write_json_escaped_iff (b'a' ∷ b'"' ∷ []) (b',' ∷ []) (omega arith, (omega arith, tt))
