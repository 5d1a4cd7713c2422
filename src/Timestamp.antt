-- ===== src/Timestamp.antt =====
-- The timestamps of crates/eden_logger/src/schema.rs. The fields of an instant come from the
-- `chrono` package, its decimal texts from `itoa`: both are parameters.
pub mod Width
pub mod Cache
pub mod Clean
mod Tests
use eden_logger.Base.{
  ℕ, zero, suc, ◌+◌, ◌-◌, ◌*◌, ◌/◌, ◌%◌, ◌^◌, ◌≤◌, ◌<◌, min, max, bit_and, bit_or, ◌≡◌, refl, sym,
  ap, ◌∙◌, subst, ◌≢◌, ◌↔◌, ◌⊎◌, inl, inr, Bool, true, false, ◌&&◌, ◌||◌, not, Option, none, some,
  List, [], ◌∷◌, ◌++◌, map, append-nil, append_assoc, arith, ltb, leb, ◌==◌, if◌then◌else◌, ltb→lt,
  lt→ltb, leb→le, ==_iff, Bool-cases, Option-cases, ◌>>=◌, or_else, is_some, is_nil, checked,
  checked-at, length, take, drop, length-append, take-append-drop, length-take, length-drop, any,
  all, All, All-append, u64_mod, u64_max, u128_max, sat_add, sat_mul, wrap_add, wrap_sub, Text,
  codes, text_eq, text_eq_iff,
}
use eden_logger.Decimal.{ℤ, pos, negsuc, Itoa, int_eq, zeros}

-- `DateTime<Utc>`, by what `year`, `month`, ... `timestamp_subsec_millis` give
pub record DateTime : Type 0 where
  pub year : ℤ
  pub month : ℕ
  pub day : ℕ
  pub hour : ℕ
  pub minute : ℕ
  pub second : ℕ
  pub millis : ℕ

unfoldable pub digit_count : ℕ → ℕ
digit_count n = if leb n 9 then 1 else if leb n 99 then 2 else if leb n 999 then 3 else 4

-- `year as u64`
unfoldable pub as_u64 : ℤ → ℕ
as_u64 (pos n) = n
as_u64 (negsuc n) = 2 ^ 64 - (n + 1)

-- `year < 1000`
unfoldable pub before_1000 : ℤ → Bool
before_1000 (pos n) = ltb n 1000
before_1000 (negsuc n) = true

unfoldable pub pad_year : Itoa → ℤ → Text
pad_year itoa year =
    (if before_1000 year then zeros (4 - digit_count (as_u64 year)) else []) ++ itoa.signed year

-- two digits, zero-padded
unfoldable pub pad_two : Itoa → ℕ → Text
pad_two itoa n = if ltb n 10 then b'0' ∷ itoa.unsigned n else itoa.unsigned n

-- three digits, zero-padded
unfoldable pub pad_three : Itoa → ℕ → Text
pad_three itoa n =
    (if ltb n 100 then b'0' ∷ [] else []) ++ (if ltb n 10 then b'0' ∷ [] else []) ++ itoa.unsigned n

unfoldable pub write_timestamp_rfc3339 : Itoa → DateTime → Text
write_timestamp_rfc3339 itoa ts =
    pad_year itoa ts.year
    ++ b'-' ∷ pad_two itoa ts.month
    ++ b'-' ∷ pad_two itoa ts.day
    ++ b'T' ∷ pad_two itoa ts.hour
    ++ b':' ∷ pad_two itoa ts.minute
    ++ b':' ∷ pad_two itoa ts.second
    ++ b'.' ∷ pad_three itoa ts.millis
    ++ b'Z' ∷ []

pub record TimestampCache : Type 0 where
  pub last_millis : ℤ
  pub formatted : Text

-- `i64::MIN`
abbrev pub i64_min : ℤ
i64_min = negsuc (2 ^ 63 - 1)

-- `TimestampCache::new`
abbrev pub new_timestamp_cache : TimestampCache
new_timestamp_cache = record { last_millis = i64_min; formatted = [] }

-- `now` is `Utc::now().timestamp_millis()`, and `fields` what `chrono` makes of an instant
unfoldable pub write_timestamp_rfc3339_now_cached :
    Itoa → (ℤ → DateTime) → TimestampCache → ℤ → TimestampCache × Text
write_timestamp_rfc3339_now_cached itoa fields cache now =
    if not (int_eq cache.last_millis now)
    then (
      record { last_millis = now; formatted = write_timestamp_rfc3339 itoa (fields now) },
      write_timestamp_rfc3339 itoa (fields now),
    )
    else (cache, cache.formatted)

-- the calls of one thread, one after the other
unfoldable pub write_timestamps :
    Itoa → (ℤ → DateTime) → TimestampCache → List ℤ → TimestampCache × List Text
write_timestamps itoa fields cache [] = (cache, [])
write_timestamps itoa fields cache (now ∷ nows) =
    let (cache', text) = write_timestamp_rfc3339_now_cached itoa fields cache now in
    let (cache'', texts) = write_timestamps itoa fields cache' nows in (cache'', text ∷ texts)
