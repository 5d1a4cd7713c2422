-- ===== src/Json/RoundTrip.antt =====
-- The two paths of `write_json_escaped` of crates/eden_logger/src/schema.rs together.
use eden_logger.Json.{needs_escape, push_char, escape_byte, escape_bytes, write_json_escaped}
use eden_logger.Json.Reader.{plain, prepend, read, read_string}
use eden_logger.Json.Escape.{
  as_chars, as_chars_iff, is_ascii, read-clean, read-escape_bytes, read_string_close,
}
use eden_logger.Trace.{hex_char}
use eden_logger.Base.{
  all-append_true, ℕ, ◌<◌, ◌≡◌, refl, ap, ◌∙◌, ◌↔◌, ◌⊎◌, inl, inr, Bool, true, false, some, [], ◌∷◌,
  ◌++◌, arith, leb, Bool-cases, checked, checked-at, any, all, All, Text,
}

-- The texts that are read back: those that need no escape, and those of ASCII bytes.
abbrev pub IsPlain : Text → Type 0
IsPlain t = (any needs_escape t ≡ false) ⊎ (all is_ascii t ≡ true)

abbrev pub IsBytes : Text → Type 0
IsBytes t = All (λ b. b < 256) t

all-IsBytes : (t : Text) → all is_ascii t ≡ true → IsBytes t
all-IsBytes [] h = tt
all-IsBytes (b ∷ t) h = (ground arith, all-IsBytes t (ground arith))

write_json_escaped-slow :
    (t rest : Text)
    → any needs_escape t ≡ true
    → IsBytes t
    → read plain (write_json_escaped t ++ rest) ≡ prepend (as_chars t) (read plain rest)
unfolding write_json_escaped
write_json_escaped-slow t rest special bytes = rw special (read-escape_bytes t rest bytes)

pub read-write_json_escaped :
    (t rest : Text)
    → IsPlain t
    → read plain (write_json_escaped t ++ rest) ≡ prepend t (read plain rest)
unfolding write_json_escaped
read-write_json_escaped t rest (inl clean) = rw clean (read-clean t rest clean)
read-write_json_escaped t rest (inr ascii) = elim (Bool-cases (any needs_escape t)) [
  | inl special ↦
      write_json_escaped-slow t rest special (all-IsBytes t ascii)
      ∙ ap (λ s. prepend s (read plain rest)) ((as_chars_iff t).1 ascii)
  | inr clean ↦ rw clean (read-clean t rest clean)
]

-- Escaped and put between quotes, a text is read back as it was if and only if none of its bytes
-- needs an escape or all of them are ASCII. A text with a byte that needs an escape and a byte
-- beyond ASCII is not read back as it was.
pub write_json_escaped_iff :
    (t rest : Text)
    → IsBytes t
    → (read_string (write_json_escaped t ++ b'"' ∷ rest) ≡ some (t, rest)) ↔ IsPlain t
unfolding read_string
write_json_escaped_iff t rest bytes = (
  λ same. elim (Bool-cases (any needs_escape t)) [
    | inl special ↦ inr (
        (as_chars_iff t).0 (
          ground (
            arith,
            write_json_escaped-slow t (b'"' ∷ rest) special bytes,
            read_string_close (as_chars t) rest,
          )))
    | inr clean ↦ inl clean
  ],
  λ h. read-write_json_escaped t (b'"' ∷ rest) h ∙ read_string_close t rest,
)

abbrev pub is_visible : ℕ → Bool
is_visible b = leb 32 b

escape_byte_table : checked (λ b. all is_visible (escape_byte b)) 256 ≡ true
unfolding checked escape_byte push_char hex_char
escape_byte_table = refl

escape_bytes-visible : (t : Text) → IsBytes t → all is_visible (escape_bytes t) ≡ true
unfolding escape_bytes
escape_bytes-visible [] h = refl
escape_bytes-visible (b ∷ t) h =
    all-append_true is_visible (escape_byte b) _ (checked-at _ b h.0 escape_byte_table)
      (escape_bytes-visible t h.1)

clean-visible : (t : Text) → any needs_escape t ≡ false → all is_visible t ≡ true
unfolding needs_escape
clean-visible [] h = refl
clean-visible (b ∷ t) h = ground (arith, clean-visible t)

pub write_json_escaped-clean :
    (t : Text) → any needs_escape t ≡ false → all is_visible (write_json_escaped t) ≡ true
unfolding write_json_escaped
write_json_escaped-clean t clean = rw clean (clean-visible t clean)

pub write_json_escaped-visible :
    (t : Text) → IsBytes t → all is_visible (write_json_escaped t) ≡ true
unfolding write_json_escaped
write_json_escaped-visible t bytes = elim (Bool-cases (any needs_escape t)) [
  | inl special ↦ rw special (escape_bytes-visible t bytes)
  | inr clean ↦ rw clean (clean-visible t clean)
]
