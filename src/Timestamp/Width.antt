-- ===== src/Timestamp/Width.antt =====
-- The shape of the timestamps of crates/eden_logger/src/schema.rs, and how they are read.
use native.Mathlib.Nat.{pow-le-pow_right}
use eden_logger.Base.{
  ℕ, suc, ◌-◌, ◌^◌, ◌≤◌, ◌<◌, ◌≡◌, refl, sym, ap, ◌⊎◌, inl, inr, true, Option, none, some, [], ◌∷◌,
  ◌++◌, append_assoc, arith, ltb, ◌==◌, if◌then◌else◌, ltb→lt, lt→ltb, Bool-cases, ◌>>=◌, length,
  length-append, all, Text,
}
use eden_logger.Decimal.{
  pos, Itoa, IsItoa, is_digit, decimal_value, decimal_value-bound, read_digits, read_digits-append,
  zeros,
}
use eden_logger.Timestamp.{
  DateTime, digit_count, before_1000, as_u64, pad_year, pad_two, pad_three, write_timestamp_rfc3339,
}

-- a given byte at the front of a text
unfoldable pub expect : ℕ → Text → Option Text
expect c [] = none
expect c (d ∷ t) = if d == c then some t else none

unfoldable pub read_part : ℕ → ℕ → Text → Option (ℕ × Text)
read_part k c t = do (n, rest) ← read_digits k 0 t; after ← expect c rest; some (n, after)

-- `YYYY-MM-DDTHH:MM:SS.mmmZ` and what follows it
unfoldable pub read_timestamp : Text → Option (DateTime × Text)
read_timestamp t = do
  (year, t1) ← read_part 4 b'-' t
  (month, t2) ← read_part 2 b'-' t1
  (day, t3) ← read_part 2 b'T' t2
  (hour, t4) ← read_part 2 b':' t3
  (minute, t5) ← read_part 2 b':' t4
  (second, t6) ← read_part 2 b'.' t5
  (millis, t7) ← read_part 3 b'Z' t6
  some (
    record {
      year = pos year;
      month = month;
      day = day;
      hour = hour;
      minute = minute;
      second = second;
      millis = millis;
    },
    t7,
  )

-- a text of a fixed number of digits with the value
pub record IsPadded (k n : ℕ) (t : Text) : Type 0 where
  pub width : length t ≡ k
  pub digits : all is_digit t ≡ true
  pub value : decimal_value 0 t ≡ n

pub expect-same : (c : ℕ) (rest : Text) → expect c (c ∷ rest) ≡ some rest
unfolding expect
expect-same c rest = ground arith

read_part-append :
    {k n : ℕ} {t : Text} (c : ℕ) (rest : Text)
    → IsPadded k n t
    → read_part k c (t ++ c ∷ rest) ≡ some (n, rest)
unfolding read_part
read_part-append {k} {n} {t} c rest h =
    rw (← h.width, read_digits-append 0 t (c ∷ rest) h.digits, h.value)
      (rw (expect-same c rest) refl)

add_zero : {k n : ℕ} {t : Text} → IsPadded k n t → IsPadded (suc k) n (b'0' ∷ t)
unfolding decimal_value
add_zero h = record { width = rw h.width; digits = h.digits; value = h.value }

module _ {itoa : Itoa} (printed : IsItoa itoa) where
  at_least : (n k : ℕ) → 10 ^ k ≤ n → k < length (itoa.unsigned n)
  at_least n k large = elim (Bool-cases (ltb k (length (itoa.unsigned n)))) [
    | inl more ↦ ltb→lt _ _ more
    | inr less ↦
        let bound = decimal_value-bound 0 (itoa.unsigned n) (printed.digits n) in
        let power : 10 ^ length (itoa.unsigned n) ≤ 10 ^ k =
          pow-le-pow_right (omega arith) (ground arith) in
        absurd (omega (arith, printed.value n, bound, power))
  ]

  of_width : (k n : ℕ) → 10 ^ k ≤ n ⊎ k ≡ 0 → n < 10 ^ suc k → IsPadded (suc k) n (itoa.unsigned n)
  of_width k n low high = record {
    width =
        ground (
          arith,
          at_least n k,
          printed.some_digit n,
          printed.shortest n (suc k) (omega arith) high,
        );
    digits = printed.digits n;
    value = printed.value n;
  }

  one_digit : (n : ℕ) → n < 10 → IsPadded 1 n (itoa.unsigned n)
  one_digit n h = of_width 0 n (inr refl) h

  pad_two-IsPadded : (n : ℕ) → n < 100 → IsPadded 2 n (pad_two itoa n)
  unfolding pad_two
  pad_two-IsPadded n small = elim (Bool-cases (ltb n 10)) [
    | inl tiny ↦ rw tiny (add_zero (one_digit n (ltb→lt n 10 tiny)))
    | inr large ↦ rw large (of_width 1 n (inl (ground arith)) small)
  ]

  pad_three-IsPadded : (n : ℕ) → n < 1000 → IsPadded 3 n (pad_three itoa n)
  unfolding pad_three
  pad_three-IsPadded n small = elim (Bool-cases (ltb n 10)) [
    | inl tiny ↦
        rw (tiny, lt→ltb n 100 (ground arith))
          (add_zero (add_zero (one_digit n (ltb→lt n 10 tiny))))
    | inr large ↦ elim (Bool-cases (ltb n 100)) [
      | inl below ↦
          rw (large, below) (add_zero (of_width 1 n (inl (ground arith)) (ltb→lt n 100 below)))
      | inr above ↦ rw (large, above) (of_width 2 n (inl (ground arith)) small)
    ]
  ]

  -- the zeros in front of a year of `count` digits
  year_case :
      (n count : ℕ)
      → n < 1000
      → digit_count n ≡ count
      → IsPadded 4 n (zeros (4 - count) ++ itoa.unsigned n)
      → IsPadded 4 n (pad_year itoa (pos n))
  unfolding pad_year before_1000 as_u64
  year_case n count small counted h = rw (lt→ltb n 1000 small, counted, printed.positive n) h

  pad_year-IsPadded : (n : ℕ) → n < 10000 → IsPadded 4 n (pad_year itoa (pos n))
  unfolding pad_year before_1000 digit_count
  pad_year-IsPadded n small = elim (Bool-cases (ltb n 10)) [
    | inl one ↦
        year_case n 1 (ground arith) (ground arith)
          (add_zero (add_zero (add_zero (one_digit n (ltb→lt n 10 one)))))
    | inr more1 ↦ elim (Bool-cases (ltb n 100)) [
      | inl two ↦
          year_case n 2 (ground arith) (ground arith)
            (add_zero (add_zero (of_width 1 n (inl (ground arith)) (ltb→lt n 100 two))))
      | inr more2 ↦ elim (Bool-cases (ltb n 1000)) [
        | inl three ↦
            year_case n 3 (ground arith) (ground arith)
              (add_zero (of_width 2 n (inl (ground arith)) (ltb→lt n 1000 three)))
        | inr four ↦ rw (four, printed.positive n) (of_width 3 n (inl (ground arith)) small)
      ]
    ]
  ]

-- the ranges in which the fields of an instant of the years 0 to 9999 are
pub record InRange (ts : DateTime) (year : ℕ) : Type 0 where
  pub year_pos : ts.year ≡ pos year
  pub year_bound : year < 10000
  pub month_bound : ts.month < 100
  pub day_bound : ts.day < 100
  pub hour_bound : ts.hour < 100
  pub minute_bound : ts.minute < 100
  pub second_bound : ts.second < 100
  pub millis_bound : ts.millis < 1000

-- An instant of the years 0 to 9999 is written in 24 bytes, and they are read back as the instant,
-- whatever follows them.
pub write_timestamp_rfc3339-read :
    {itoa : Itoa}
    → IsItoa itoa
    → (ts : DateTime) {year : ℕ} (rest : Text) → InRange ts year
    → (length (write_timestamp_rfc3339 itoa ts) ≡ 24)
      × (read_timestamp (write_timestamp_rfc3339 itoa ts ++ rest) ≡ some (ts, rest))
unfolding write_timestamp_rfc3339 read_timestamp
write_timestamp_rfc3339-read {itoa} printed ts {year} rest h =
    let y = pad_year-IsPadded printed year h.year_bound in
    let mo = pad_two-IsPadded printed ts.month h.month_bound in
    let d = pad_two-IsPadded printed ts.day h.day_bound in
    let ho = pad_two-IsPadded printed ts.hour h.hour_bound in
    let mi = pad_two-IsPadded printed ts.minute h.minute_bound in
    let s = pad_two-IsPadded printed ts.second h.second_bound in
    let ml = pad_three-IsPadded printed ts.millis h.millis_bound in
    (
      simp
          (
            h.year_pos, length-append, y.width, mo.width, d.width, ho.width, mi.width, s.width,
            ml.width,
          )
          refl,
      simp (h.year_pos, append_assoc)
          (rw
            (
              read_part-append b'-' _ y,
              read_part-append b'-' _ mo,
              read_part-append b'T' _ d,
              read_part-append b':' _ ho,
              read_part-append b':' _ mi,
              read_part-append b'.' _ s,
              read_part-append b'Z' _ ml,
            )
            (ap (λ y. some (record ts { year = y }, rest)) (sym h.year_pos))),
    )
