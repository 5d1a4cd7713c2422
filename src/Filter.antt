-- ===== src/Filter.antt =====
-- The runtime level filter, crates/eden_logger/src/filter.rs: the mask of enabled levels, the
-- calls that change it and the test on the hot path. Texts are lists of code points.
pub mod Mask
pub mod Levels
mod Tests
use mathlib.Core.List.{reverse}
use eden_logger.Level.{LogLevel, trace, debug, info, warn, error, level_index}
use eden_logger.Base.{
  ℕ, zero, suc, ◌+◌, ◌-◌, ◌*◌, ◌/◌, ◌%◌, ◌^◌, ◌≤◌, ◌<◌, min, max, bit_and, bit_or, ◌≡◌, refl, sym,
  ap, ◌∙◌, subst, ◌≢◌, ◌↔◌, ◌⊎◌, inl, inr, Bool, true, false, ◌&&◌, ◌||◌, not, Option, none, some,
  List, [], ◌∷◌, ◌++◌, map, append-nil, append_assoc, arith, ltb, leb, ◌==◌, if◌then◌else◌, ltb→lt,
  lt→ltb, leb→le, ==_iff, Bool-cases, Option-cases, ◌>>=◌, or_else, is_some, length, take, drop,
  length-append, take-append-drop, length-take, length-drop, any, all, All, All-append, u64_mod,
  u64_max, u128_max, sat_add, sat_mul, wrap_add, wrap_sub, Text, codes, text_eq, text_eq_iff,
}

-- The two statics `ENABLED_LEVELS` and `FILTER_STATE`, each a `u8`.
pub record Filter : Type 0 where
  pub enabled_levels : ℕ
  pub filter_state : ℕ

abbrev pub uninitialized : ℕ
uninitialized = 0

abbrev pub initializing : ℕ
initializing = 1

abbrev pub initialized : ℕ
initialized = 2

-- The statics at the start of the process.
unfoldable pub fresh : Filter
fresh = record { enabled_levels = 0; filter_state = uninitialized }

-- The code points of the Unicode property White_Space.
unfoldable pub is_whitespace : ℕ → Bool
is_whitespace c =
    (leb 9 c && leb c 13)
    || (c == 32)
    || (c == 0x85)
    || (c == 0xA0)
    || (c == 0x1680)
    || (leb 0x2000 c && leb c 0x200A)
    || (c == 0x2028)
    || (c == 0x2029)
    || (c == 0x202F)
    || (c == 0x205F)
    || (c == 0x3000)

unfoldable pub trim_start : Text → Text
trim_start [] = []
trim_start (c ∷ s) = if is_whitespace c then trim_start s else c ∷ s

-- `str::trim`
unfoldable pub trim : Text → Text
unfolding is_whitespace trim_start
trim s = reverse (trim_start (reverse (trim_start s)))

unfoldable pub ascii_lower : ℕ → ℕ
ascii_lower c = if leb b'A' c && leb c b'Z' then c + 32 else c

pub eq_ignore_ascii_case : Text → Text → Bool
unfolding ascii_lower text_eq
eq_ignore_ascii_case s t = text_eq (map ascii_lower s) (map ascii_lower t)

push_head : ℕ → List Text → List Text
push_head c [] = (c ∷ []) ∷ []
push_head c (t ∷ ts) = (c ∷ t) ∷ ts

-- `str::split` at one character
pub split : ℕ → Text → List Text
unfolding push_head
split sep [] = [] ∷ []
split sep (c ∷ s) = let rest = split sep s in if c == sep then [] ∷ rest else push_head c rest

-- The `match` on the lower-case name.
unfoldable pub level_named : Text → Option LogLevel
unfolding text_eq
level_named s =
    if text_eq s (codes "trace")
    then some trace
    else if text_eq s (codes "debug")
    then some debug
    else if text_eq s (codes "info")
    then some info
    else if text_eq s (codes "warn")
    then some warn
    else if text_eq s (codes "error")
    then some error
    else none

-- `1 << (level as u8)`
unfoldable pub level_bit : LogLevel → ℕ
level_bit l = 2 ^ level_index l

unfoldable pub disables_all : Text → Bool
unfolding trim eq_ignore_ascii_case text_eq
disables_all value =
    let trimmed = trim value in
    text_eq trimmed []
    || eq_ignore_ascii_case trimmed (codes "none")
    || eq_ignore_ascii_case trimmed (codes "off")

unfoldable pub set_levels : Filter → ℕ → Filter
set_levels f mask = record { enabled_levels = mask; filter_state = initialized }

pub enable_mask : ℕ → List LogLevel → ℕ
unfolding level_bit
enable_mask mask [] = mask
enable_mask mask (l ∷ ls) = enable_mask (bit_or mask (level_bit l)) ls

-- `mask & !bit`, on eight bits
pub disable_mask : ℕ → List LogLevel → ℕ
unfolding level_bit
disable_mask mask [] = mask
disable_mask mask (l ∷ ls) = disable_mask (bit_and mask (255 - level_bit l)) ls

pub enable_levels : Filter → List LogLevel → Filter
enable_levels f levels = set_levels f (enable_mask f.enabled_levels levels)

pub disable_levels : Filter → List LogLevel → Filter
disable_levels f levels = set_levels f (disable_mask f.enabled_levels levels)

pub clear_filter : Filter → Filter
clear_filter f = set_levels f 0

-- The test of the mask in `should_log`, after the filter is initialized.
unfoldable pub mask_allows : ℕ → LogLevel → Bool
unfolding level_bit
mask_allows enabled l =
    if enabled == 0x80
    then false
    else if enabled == 0
    then true
    else not (bit_and enabled (level_bit l) == 0)

-- `lower_char` is the Unicode lower-case mapping of a code point beyond ASCII.
module _ (lower_char : ℕ → Text) where
  pub to_lowercase : Text → Text
  unfolding ascii_lower
  to_lowercase [] = []
  to_lowercase (c ∷ s) = (if ltb c 128 then ascii_lower c ∷ [] else lower_char c) ++ to_lowercase s

  pub level_of_part : Text → Option LogLevel
  unfolding trim to_lowercase level_named
  level_of_part part = level_named (to_lowercase (trim part))

  -- The loop over the parts of the value.
  pub parse_mask : ℕ → List Text → ℕ
  unfolding level_bit
  parse_mask mask [] = mask
  parse_mask mask (p ∷ ps) = elim (level_of_part p) [
    | none ↦ parse_mask mask ps
    | some l ↦ parse_mask (bit_or mask (level_bit l)) ps
  ]

  pub init_from_value : Filter → Text → Filter
  init_from_value f value =
      if disables_all value
      then set_levels f 0x80
      else set_levels f (parse_mask 0 (split b';' value))

  -- `env` is the value of `EDEN_LOG_LEVEL`, if it is set.
  pub init_from_env : Option Text → Filter → Filter
  init_from_env none f = record f { filter_state = initialized }
  init_from_env (some value) f = record (init_from_value f value) { filter_state = initialized }

  -- `ensure_filter_initialized` of one thread that no other thread interrupts; `none` while it spins.
  unfoldable pub ensure_filter_initialized : Option Text → Filter → Option Filter
  ensure_filter_initialized env f =
      if f.filter_state == initialized
      then some f
      else if f.filter_state == uninitialized
      then some (init_from_env env (record f { filter_state = initializing }))
      else none

  unfoldable pub should_log : Option Text → Filter → LogLevel → Option (Filter × Bool)
  should_log env f l = do
    g ← ensure_filter_initialized env f
    some (g, mask_allows g.enabled_levels l)
