-- ===== src/Json/Escape.antt =====
-- What the escaping of crates/eden_logger/src/schema.rs writes, and what a reader of JSON takes it
-- for.
use eden_logger.Json.{needs_escape, push_char, escape_byte, escape_bytes}
use eden_logger.Json.Reader.{
  Mode, plain, escaped, hex, close, bad, go, step, code_point, read_hex, read_escaped, prepend,
  read,
}
use eden_logger.Trace.{hex_char}
use eden_logger.Export.Mapper.{hex_nibble}
use eden_logger.Base.{
  ℕ, ◌≤◌, ◌<◌, ◌≡◌, refl, sym, ap, ◌∙◌, ◌↔◌, Bool, true, false, Option, none, some, [], ◌∷◌, ◌++◌,
  append-nil, append_assoc, arith, ltb, is_some, length, checked, checked-at, any, all, All, Text,
  text_eq, text_eq_iff,
}

-- the text of the characters U+00b, for the bytes b of a text
unfoldable pub as_chars : Text → Text
as_chars [] = []
as_chars (b ∷ t) = push_char b ++ as_chars t

pub prepend_nil : (o : Option (Text × Text)) → prepend [] o ≡ o
unfolding prepend
prepend_nil none = refl
prepend_nil (some p) = refl

pub prepend_append :
    (s t : Text) (o : Option (Text × Text)) → prepend s (prepend t o) ≡ prepend (s ++ t) o
unfolding prepend
prepend_append s t none = refl
prepend_append s t (some p) = rw append_assoc

-- the steps over a text that stay inside the string, with the text they give
then_out : Text → Option (Mode × Text) → Option (Mode × Text)
then_out first none = none
then_out first (some (m, out)) = some (m, first ++ out)

steps : Mode → Text → Option (Mode × Text)
steps m [] = some (m, [])
steps m (c ∷ t) = elim (step m c) [
  | close ↦ none
  | bad ↦ none
  | go m' first ↦ then_out first (steps m' t)
]

then_read : Option (Mode × Text) → Text → Option (Text × Text)
then_read none rest = none
then_read (some (m, out)) rest = prepend out (read m rest)

then_read-then_out :
    (first : Text) (o : Option (Mode × Text)) (rest : Text)
    → then_read (then_out first o) rest ≡ prepend first (then_read o rest)
unfolding then_read then_out prepend
then_read-then_out first none rest = refl
then_read-then_out first (some (m, out)) rest = sym (prepend_append first out (read m rest))

is_some-then_out :
    (first : Text) (o : Option (Mode × Text)) → is_some (then_out first o) ≡ true → is_some o ≡ true
unfolding then_out
is_some-then_out first none h = h
is_some-then_out first (some p) h = refl

read-steps :
    (m : Mode) (t rest : Text)
    → is_some (steps m t) ≡ true
    → read m (t ++ rest) ≡ then_read (steps m t) rest
unfolding steps read then_read
read-steps m [] rest h = sym (prepend_nil _)
read-steps m (c ∷ t) rest h =
    elim (step m c)
        as (λ s.
          is_some (elim s [ close ↦ none | bad ↦ none | go m' first ↦ then_out first (steps m' t) ])
            ≡ true
          → (elim s [
            | close ↦ some ([], t ++ rest)
            | bad ↦ none
            | go m' first ↦ prepend first (read m' (t ++ rest))
          ])
            ≡ then_read
                (elim s [ close ↦ none | bad ↦ none | go m' first ↦ then_out first (steps m' t) ])
                rest) [
                  | close ↦ λ h. ground arith
                  | bad ↦ λ h. ground arith
                  | go m' first ↦ λ h.
                      ap (prepend first) (read-steps m' t rest (is_some-then_out first _ h))
                      ∙ sym (then_read-then_out first _ rest)
                ]
      h

reads_as : Option (Mode × Text) → Text → Bool
reads_as (some (plain, s)) t = text_eq s t
reads_as _ t = false

reads_as→eq : (o : Option (Mode × Text)) (t : Text) → reads_as o t ≡ true → o ≡ some (plain, t)
unfolding reads_as
reads_as→eq none t h = ground arith
reads_as→eq (some (plain, s)) t h = rw ((text_eq_iff s t).0 h)
reads_as→eq (some (escaped, s)) t h = ground arith
reads_as→eq (some (hex k v, s)) t h = ground arith

byte_table : checked (λ b. reads_as (steps plain (escape_byte b)) (push_char b)) 256 ≡ true
unfolding checked reads_as steps escape_byte push_char step read_escaped read_hex hex_nibble
    hex_char code_point text_eq then_out
byte_table = refl

read-escape_byte :
    (b : ℕ) (rest : Text)
    → b < 256
    → read plain (escape_byte b ++ rest) ≡ prepend (push_char b) (read plain rest)
unfolding then_read
read-escape_byte b rest small =
    let table = reads_as→eq _ _ (checked-at _ b small byte_table) in
    read-steps plain (escape_byte b) rest (ap is_some table) ∙ ap (λ o. then_read o rest) table

-- The slow path: a reader takes the text for the characters of its bytes, each byte for itself.
pub read-escape_bytes :
    (t rest : Text)
    → All (λ b. b < 256) t
    → read plain (escape_bytes t ++ rest) ≡ prepend (as_chars t) (read plain rest)
unfolding escape_bytes as_chars
read-escape_bytes [] rest h = sym (prepend_nil _)
read-escape_bytes (b ∷ t) rest h =
    rw append_assoc (read-escape_byte b _ h.0)
    ∙ ap (prepend (push_char b)) (read-escape_bytes t rest h.1)
    ∙ prepend_append (push_char b) (as_chars t) _

steps-clean :
    (b : ℕ) (t : Text)
    → any needs_escape (b ∷ t) ≡ false
    → steps plain (b ∷ []) ≡ some (plain, b ∷ [])
unfolding steps step needs_escape then_out
steps-clean b t h = ground arith

clean_rest : (b : ℕ) (t : Text) → any needs_escape (b ∷ t) ≡ false → any needs_escape t ≡ false
clean_rest b t h = ground arith

-- The fast path: a text without quotes, backslashes and control characters is read as it is.
pub read-clean :
    (t rest : Text)
    → any needs_escape t ≡ false
    → read plain (t ++ rest) ≡ prepend t (read plain rest)
unfolding then_read
read-clean [] rest h = sym (prepend_nil _)
read-clean (b ∷ t) rest h =
    read-steps plain (b ∷ []) (t ++ rest) (rw (steps-clean b t h) refl)
    ∙ rw (steps-clean b t h)
        (ap (prepend (b ∷ [])) (read-clean t rest (clean_rest b t h)) ∙ prepend_append (b ∷ []) t _)

pub read_string_close : (t rest : Text) → prepend t (read plain (b'"' ∷ rest)) ≡ some (t, rest)
unfolding prepend read step
read_string_close t rest = rw append-nil refl

abbrev pub is_ascii : ℕ → Bool
is_ascii b = ltb b 128

as_chars-length : (t : Text) → length t ≤ length (as_chars t)
unfolding as_chars push_char
as_chars-length [] = omega arith
as_chars-length (b ∷ t) = ground (arith, as_chars-length t)

pub as_chars_iff : (t : Text) → (as_chars t ≡ t) ↔ (all is_ascii t ≡ true)
unfolding as_chars push_char
as_chars_iff [] = (λ e. refl, λ h. refl)
as_chars_iff (b ∷ t) = ground (arith, as_chars-length t, as_chars_iff t)
