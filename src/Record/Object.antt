-- ===== src/Record/Object.antt =====
-- A JSON object of strings and tokens, printed on one line and read: the description that the JSON
-- lines of crates/eden_logger/src/schema.rs are compared with.
use eden_logger.Base.{
  ℕ, zero, suc, ◌+◌, ◌≤◌, ◌≡◌, refl, sym, ap, ◌∙◌, subst, Bool, true, false, ◌&&◌, ◌||◌, not,
  Option, none, some, List, [], ◌∷◌, ◌++◌, map, append_assoc, arith, ◌==◌, if◌then◌else◌, ◌>>=◌,
  is_nil, length, drop, length-append, all, All, Text,
}
use eden_logger.Json.{write_json_escaped, write_escaped_chunks}
use eden_logger.Json.Reader.{plain, prepend, read, read_string}
use eden_logger.Json.Escape.{prepend_append, prepend_nil, read_string_close}
use eden_logger.Json.RoundTrip.{IsPlain, read-write_json_escaped}
use eden_logger.Timestamp.Width.{expect, expect-same}
use eden_logger.Record.{concat}

-- a value: a string, written in chunks, or a token such as a number
pub data Value : Type 0 where
  chunks : List Text → Value
  token : Text → Value

abbrev pub Member : Type 0
Member = Text × Value

abbrev pub text : Text → Value
text t = chunks (t ∷ [])

unfoldable pub print_value : Value → Text
print_value (chunks ts) = b'"' ∷ write_escaped_chunks ts ++ b'"' ∷ []
print_value (token t) = t

-- a member behind a comma
unfoldable pub print_member : Member → Text
print_member (key, value) = b',' ∷ b'"' ∷ write_json_escaped key ++ b'"' ∷ b':' ∷ print_value value

unfoldable pub print_members : List Member → Text
print_members [] = []
print_members (m ∷ members) = print_member m ++ print_members members

-- the members of an object, each behind a comma, and the brace that closes it
unfoldable pub print_rest : List Member → Text
print_rest members = print_members members ++ b'}' ∷ []

-- the token in front of the next comma or brace
unfoldable pub read_token : Text → Text × Text
read_token [] = ([], [])
read_token (c ∷ t) =
    let (s, rest) = read_token t in if c == b',' || c == b'}' then ([], c ∷ t) else (c ∷ s, rest)

unfoldable pub string_value : Option (Text × Text) → Option (Value × Text)
string_value none = none
string_value (some (s, rest)) = some (text s, rest)

unfoldable pub token_value : Text × Text → Value × Text
token_value (s, rest) = (token s, rest)

unfoldable pub read_value : Text → Option (Value × Text)
read_value [] = none
read_value (c ∷ t) =
    if c == b'"' then string_value (read_string t) else some (token_value (read_token (c ∷ t)))

unfoldable pub read_member : Text → Option (Member × Text)
read_member t = do
  t1 ← expect b'"' t
  (key, t2) ← read_string t1
  t3 ← expect b':' t2
  (value, t4) ← read_value t3
  some ((key, value), t4)

-- The members of an object, each behind a comma, up to the brace that closes it and the end of the
-- text; the fuel bounds their number.
unfoldable pub read_rest : ℕ → Text → Option (List Member)
read_rest fuel [] = none
read_rest zero (c ∷ t) = if c == b'}' && is_nil t then some [] else none
read_rest (suc fuel) (c ∷ t) = elim (c == b',') [
  | true ↦ do (m, t1) ← read_member t; members ← read_rest fuel t1; some (m ∷ members)
  | false ↦ if c == b'}' && is_nil t then some [] else none
]

-- a value as it is read: the chunks of a string are one text
abbrev pub joined_value : Value → Value
joined_value (chunks ts) = text (concat ts)
joined_value (token t) = token t

abbrev pub joined : Member → Member
joined (key, value) = (key, joined_value value)

abbrev pub is_token_byte : ℕ → Bool
is_token_byte c = not (c == b'"' || c == b',' || c == b'}')

abbrev pub IsPlainValue : Value → Type 0
IsPlainValue (chunks ts) = All IsPlain ts
IsPlainValue (token t) = (all is_token_byte t ≡ true) × (1 ≤ length t)

-- members that a reader takes for what they are
abbrev pub IsPlainMember : Member → Type 0
IsPlainMember (key, value) = IsPlain key × IsPlainValue value

read-write_escaped_chunks :
    (ts : List Text) (rest : Text)
    → All IsPlain ts
    → read plain (write_escaped_chunks ts ++ rest) ≡ prepend (concat ts) (read plain rest)
unfolding write_escaped_chunks
read-write_escaped_chunks [] rest h = sym (prepend_nil _)
read-write_escaped_chunks (t ∷ ts) rest h =
    rw append_assoc (read-write_json_escaped t _ h.0)
    ∙ ap (prepend t) (read-write_escaped_chunks ts rest h.1)
    ∙ prepend_append t (concat ts) _

ends_token : ℕ → Bool
ends_token c = c == b',' || c == b'}'

read_token-append :
    (t rest : Text) (c : ℕ)
    → all is_token_byte t ≡ true
    → ends_token c ≡ true
    → read_token (t ++ c ∷ rest) ≡ (t, c ∷ rest)
unfolding read_token ends_token
read_token-append [] rest c h e = ground arith
read_token-append (d ∷ t) rest c h e = ground (arith, read_token-append t rest c)

read_value-print_value :
    (v : Value) (rest : Text) (c : ℕ)
    → IsPlainValue v
    → ends_token c ≡ true
    → read_value (print_value v ++ c ∷ rest) ≡ some (joined_value v, c ∷ rest)
unfolding read_value print_value string_value token_value read_string
read_value-print_value (chunks ts) rest c h e =
    rw (append_assoc, read-write_escaped_chunks ts _ h, read_string_close) refl
read_value-print_value (token []) rest c h e = absurd (omega (arith, h.1))
read_value-print_value (token (d ∷ t)) rest c h e =
    ground (arith, h.0, read_token-append (d ∷ t) rest c h.0 e)

read_member-print_member :
    (key : Text) (v : Value) (rest : Text) (c : ℕ)
    → IsPlainMember (key, v)
    → ends_token c ≡ true
    → read_member (b'"' ∷ write_json_escaped key ++ b'"' ∷ b':' ∷ print_value v ++ c ∷ rest)
      ≡ some (joined (key, v), c ∷ rest)
unfolding read_member read_string
read_member-print_member key v rest c h e = rw (expect-same b'"') (
    rw (append_assoc, read-write_json_escaped key _ h.0, read_string_close)
      (rw (expect-same b':') (rw (read_value-print_value v rest c h.1 e) refl)))

starts_rest :
    (members : List Member)
    → (c : ℕ) × (t : Text) × (print_rest members ≡ c ∷ t) × (ends_token c ≡ true)
unfolding print_rest print_members print_member ends_token
starts_rest [] = (b'}', [], refl, refl)
starts_rest ((key, v) ∷ members) = (b',', _, refl, refl)

print_rest-cons :
    (key : Text) (v : Value) (members : List Member)
    → print_rest ((key, v) ∷ members)
      ≡ b',' ∷ b'"' ∷ write_json_escaped key ++ b'"' ∷ b':' ∷ print_value v ++ print_rest members
unfolding print_rest print_members print_member
print_rest-cons key v members = rw append_assoc refl

read_rest-print_rest :
    (members : List Member) (fuel : ℕ)
    → All IsPlainMember members
    → length members ≤ fuel
    → read_rest fuel (print_rest members) ≡ some (map joined members)
unfolding read_rest
read_rest-print_rest [] zero h enough = unfold print_rest print_members in refl
read_rest-print_rest [] (suc fuel) h enough = unfold print_rest print_members in refl
read_rest-print_rest (m ∷ members) zero h enough = absurd (omega (arith, enough))
read_rest-print_rest ((key, v) ∷ members) (suc fuel) h enough =
    let (c, t, starts, ends) = starts_rest members in
    let smaller : read_rest fuel (c ∷ t) ≡ some (map joined members) =
      subst (λ u. read_rest fuel u ≡ some (map joined members)) starts
        (read_rest-print_rest members fuel h.1 (omega (arith, enough))) in
    rw (print_rest-cons, starts)
      (rw (read_member-print_member key v t c h.0 ends) (rw smaller refl))

length-print_rest : (members : List Member) → length members + 1 ≤ length (print_rest members)
length-print_rest [] = unfold print_rest print_members in omega arith
length-print_rest ((key, v) ∷ members) =
    rw print_rest-cons (simp length-append (omega (arith, length-print_rest members)))

-- an object whose text starts with its first member, not behind a comma
unfoldable pub print_object : List Member → Text
print_object members = b'{' ∷ drop 1 (print_rest members)

-- `b'{'`, and the members as if the first, too, were behind a comma
unfoldable pub read_object : Text → Option (List Member)
read_object [] = none
read_object (c ∷ t) = if c == b'{' then read_rest (length t) (b',' ∷ t) else none

pub read_object-print_object :
    (m : Member) (members : List Member)
    → All IsPlainMember (m ∷ members)
    → read_object (print_object (m ∷ members)) ≡ some (map joined (m ∷ members))
unfolding read_object print_object
read_object-print_object (key, v) members h = rw (print_rest-cons key v members) (
    rw (← print_rest-cons key v members) (
      read_rest-print_rest ((key, v) ∷ members) _ h
        (simp length-append (omega (arith, length-print_rest members)))))
