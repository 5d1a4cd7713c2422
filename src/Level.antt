-- ===== src/Level.antt =====
-- The severity and audience of a record: `LogLevel` of crates/eden_logger/src/schema.rs and
-- `LogAudience` of crates/eden_logger/src/context.rs, with their texts and their order.
use eden_logger.Base.{
  ℕ, ◌<◌, ◌≡◌, ◌↔◌, Bool, true, false, List, ◌∷◌, ◌++◌, arith, ltb, leb, ◌==◌, any, Text, codes,
}

pub data LogLevel : Type 0 where
  trace debug info warn error : LogLevel

pub data LogAudience : Type 0 where
  internal client both : LogAudience

-- `level as u8`; the derived order of `LogLevel` is the order of these numbers.
abbrev pub level_index : LogLevel → ℕ
level_index trace = 0
level_index debug = 1
level_index info = 2
level_index warn = 3
level_index error = 4

-- `a < b` and `a >= b` on levels
abbrev pub level_ltb : LogLevel → LogLevel → Bool
level_ltb a b = ltb (level_index a) (level_index b)

abbrev pub level_leb : LogLevel → LogLevel → Bool
level_leb a b = leb (level_index a) (level_index b)

abbrev pub level_eq : LogLevel → LogLevel → Bool
level_eq a b = level_index a == level_index b

unfoldable pub level_as_str : LogLevel → Text
level_as_str trace = codes "TRACE"
level_as_str debug = codes "DEBUG"
level_as_str info = codes "INFO"
level_as_str warn = codes "WARN"
level_as_str error = codes "ERROR"

-- The colour of a level: the digit that stands in its ANSI sequence.
color_digit : LogLevel → ℕ
color_digit trace = b'5'
color_digit debug = b'6'
color_digit info = b'2'
color_digit warn = b'3'
color_digit error = b'1'

unfoldable pub level_as_colored_str : LogLevel → Text
unfolding color_digit level_as_str
level_as_colored_str l =
    0x1b ∷ b'[' ∷ b'3' ∷ color_digit l ∷ b'm' ∷ (level_as_str l ++ 0x1b ∷ codes "[0m")

unfoldable pub audience_as_str : LogAudience → Text
audience_as_str internal = codes "INTERNAL"
audience_as_str client = codes "CLIENT"
audience_as_str both = codes "BOTH"

unfoldable pub should_send_to_client : LogAudience → Bool
should_send_to_client internal = false
should_send_to_client client = true
should_send_to_client both = true

-- A level is among those of a list.
abbrev pub elem : LogLevel → List LogLevel → Bool
elem l = any (level_eq l)

pub level_index_lt : (l : LogLevel) → level_index l < 5
level_index_lt l = ground arith

pub level_eq_iff : (a b : LogLevel) → (level_eq a b ≡ true) ↔ (a ≡ b)
level_eq_iff trace b = ground arith
level_eq_iff debug b = ground arith
level_eq_iff info b = ground arith
level_eq_iff warn b = ground arith
level_eq_iff error b = ground arith
