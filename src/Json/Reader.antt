-- ===== src/Json/Reader.antt =====
-- What a reader of JSON takes a string's text for: the description of the format of RFC 8259 that
-- the escaping of crates/eden_logger/src/schema.rs is compared with. Pairs of surrogates are not
-- read.
use eden_logger.Base.{
  ℕ, ◌+◌, ◌-◌, ◌*◌, ◌/◌, ◌%◌, ◌&&◌, ◌||◌, Option, none, some, [], ◌∷◌, ◌++◌, ltb, leb, ◌==◌,
  if◌then◌else◌, Text,
}
use eden_logger.Export.Mapper.{hex_nibble}

-- where the reader stands: in the text, behind a backslash, or in `\uXXXX` with so many digits
-- to come behind the next, and the value of those read
pub data Mode : Type 0 where
  plain escaped : Mode
  hex : ℕ → ℕ → Mode

pub data Step : Type 0 where
  close bad : Step
  go : Mode → Text → Step

unfoldable pub code_point : ℕ → Step
code_point c =
    if ltb c 128
    then go plain (c ∷ [])
    else if ltb c 2048
    then go plain ((192 + c / 64) ∷ (128 + c % 64) ∷ [])
    else if leb 0xd800 c && leb c 0xdfff
    then bad
    else go plain ((224 + c / 4096) ∷ (128 + c / 64 % 64) ∷ (128 + c % 64) ∷ [])

unfoldable pub read_hex : ℕ → ℕ → Option ℕ → Step
read_hex left value none = bad
read_hex left value (some d) =
    if left == 0 then code_point (16 * value + d) else go (hex (left - 1) (16 * value + d)) []

unfoldable pub read_escaped : ℕ → Step
read_escaped c =
    if c == b'"' || c == b'\\' || c == b'/'
    then go plain (c ∷ [])
    else if c == b'n'
    then go plain (10 ∷ [])
    else if c == b'r'
    then go plain (13 ∷ [])
    else if c == b't'
    then go plain (9 ∷ [])
    else if c == b'b'
    then go plain (8 ∷ [])
    else if c == b'f'
    then go plain (12 ∷ [])
    else if c == b'u'
    then go (hex 3 0) []
    else bad

unfoldable pub step : Mode → ℕ → Step
step plain c =
    if c == b'"'
    then close
    else if c == b'\\'
    then go escaped []
    else if ltb c 32
    then bad
    else go plain (c ∷ [])
step escaped c = read_escaped c
step (hex left value) c = read_hex left value (hex_nibble c)

unfoldable pub prepend : Text → Option (Text × Text) → Option (Text × Text)
prepend out none = none
prepend out (some (s, rest)) = some (out ++ s, rest)

-- the text in front of the closing quote, and what follows the quote
unfoldable pub read : Mode → Text → Option (Text × Text)
read m [] = none
read m (c ∷ t) = elim (step m c) [
  | close ↦ some ([], t)
  | bad ↦ none
  | go m' out ↦ prepend out (read m' t)
]

unfoldable pub read_string : Text → Option (Text × Text)
read_string t = read plain t
