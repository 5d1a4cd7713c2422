-- ===== src/Export/Worker/Retry.antt =====
-- `retry_delay` of crates/eden_logger_export/src/worker.rs and the delay that `export_batch` makes
-- of it. A `Duration` is its number of nanoseconds; the jitter is the sub-second part of the clock.
use native.Mathlib.Nat.{pow-le-pow_right, mul-le-mul_left}
use eden_logger.Base.{
  ℕ, ◌+◌, ◌-◌, ◌*◌, ◌/◌, ◌%◌, ◌^◌, ◌≤◌, ◌<◌, min, ◌≡◌, refl, ap, Option, none, some, arith, u64_max,
  u128_max,
}

abbrev pub nanos_per_milli : ℕ
nanos_per_milli = 1_000_000

-- The longest `Duration`: u64::MAX seconds and a second less a nanosecond.
abbrev pub duration_max : ℕ
duration_max = u64_max * 1_000_000_000 + 999_999_999

-- `Duration::as_millis`
abbrev pub as_millis : ℕ → ℕ
as_millis d = d / nanos_per_milli

abbrev sat_add_u128 : ℕ → ℕ → ℕ
sat_add_u128 a b = min (a + b) u128_max

abbrev sat_mul_u128 : ℕ → ℕ → ℕ
sat_mul_u128 a b = min (a * b) u128_max

unfoldable pub base_millis : ℕ → ℕ → ℕ → ℕ
base_millis failures initial maximum =
    min (sat_mul_u128 (as_millis initial) (2 ^ min (failures - 1) 20)) (as_millis maximum)

-- `subsec_nanos` is what the clock shows below a second.
unfoldable pub retry_delay : ℕ → ℕ → ℕ → ℕ → ℕ
retry_delay subsec_nanos failures initial maximum =
    let percent = sat_add_u128 75 (subsec_nanos % 51) in
    let jittered = sat_mul_u128 (base_millis failures initial maximum) percent / 100 in
    min jittered u64_max * nanos_per_milli

-- `error.retry_after.unwrap_or_else(…).min(config.retry_max)`
unfoldable pub backoff : Option ℕ → ℕ → ℕ → ℕ → ℕ → ℕ
backoff none subsec_nanos failures initial maximum =
    min (retry_delay subsec_nanos failures initial maximum) maximum
backoff (some after) subsec_nanos failures initial maximum = min after maximum

pow_mono : (a b : ℕ) → a ≤ b → 2 ^ a ≤ 2 ^ b
pow_mono a b h = pow-le-pow_right (omega arith) h

-- The base never falls from one failure to the next, and never exceeds the maximum.
base_millis_mono :
    (m n initial maximum : ℕ)
    → m ≤ n
    → (base_millis m initial maximum ≤ base_millis n initial maximum)
      × (base_millis n initial maximum ≤ as_millis maximum)
unfolding base_millis
base_millis_mono m n initial maximum h = (
  omega (
    arith,
    mul-le-mul_left (as_millis initial) (pow_mono (min (m - 1) 20) (min (n - 1) 20) (omega arith)),
  ),
  omega arith,
)

-- Whatever the collector asks for and whatever the jitter, the worker waits no longer than the
-- configured maximum.
backoff_le :
    (retry_after : Option ℕ) (subsec_nanos failures initial maximum : ℕ)
    → backoff retry_after subsec_nanos failures initial maximum ≤ maximum
unfolding backoff
backoff_le none subsec_nanos failures initial maximum = omega arith
backoff_le (some after) subsec_nanos failures initial maximum = omega arith

-- The base without the saturation: the initial delay doubled once for every failure but the first,
-- at most twenty times, in milliseconds, up to the maximum.
abbrev pub doubled : ℕ → ℕ → ℕ → ℕ
doubled failures initial maximum =
    min (initial / nanos_per_milli * 2 ^ min (failures - 1) 20) (maximum / nanos_per_milli)

base_millis-doubled :
    (failures initial maximum : ℕ)
    → maximum ≤ duration_max
    → base_millis failures initial maximum ≡ doubled failures initial maximum
unfolding base_millis
base_millis-doubled failures initial maximum h = omega (arith, h)

-- A percentage of a delay in milliseconds, in whole milliseconds that a `u64` holds, up to the
-- maximum.
abbrev pub share : ℕ → ℕ → ℕ → ℕ
share base percent maximum = min (min (base * percent / 100) u64_max * nanos_per_milli) maximum

jittered-share :
    (base percent maximum : ℕ)
    → percent ≤ 125
    → base ≤ duration_max
    → min (min (sat_mul_u128 base percent / 100) u64_max * nanos_per_milli) maximum
      ≡ share base percent maximum
jittered-share base percent maximum high small =
    let product : min (base * percent) u128_max ≡ base * percent =
      omega (arith, small, mul-le-mul_left base high) in
    rw product refl

backoff-share :
    (subsec_nanos failures initial maximum : ℕ)
    → maximum ≤ duration_max
    → backoff none subsec_nanos failures initial maximum
      ≡ share (doubled failures initial maximum) (75 + subsec_nanos % 51) maximum
unfolding backoff retry_delay
backoff-share subsec_nanos failures initial maximum h =
    let percent : sat_add_u128 75 (subsec_nanos % 51) ≡ 75 + subsec_nanos % 51 = omega arith in
    rw (base_millis-doubled failures initial maximum h, percent)
      (jittered-share (doubled failures initial maximum) (75 + subsec_nanos % 51) maximum
        (omega arith) (omega (arith, h)))

share_mono : (base p q maximum : ℕ) → p ≤ q → share base p maximum ≤ share base q maximum
share_mono base p q maximum le = omega (arith, mul-le-mul_left base le)

doubled_pos :
    (failures initial maximum : ℕ)
    → 2 * nanos_per_milli ≤ initial
    → 2 * nanos_per_milli ≤ maximum
    → 2 ≤ doubled failures initial maximum
doubled_pos failures initial maximum hi hm = omega (
  arith,
  mul-le-mul_left (initial / nanos_per_milli) (pow_mono 0 (min (failures - 1) 20) (omega arith)),
)

doubled_zero :
    (failures initial maximum : ℕ)
    → initial < nanos_per_milli
    → doubled failures initial maximum ≡ 0
doubled_zero failures initial maximum short =
    let none_left : initial / nanos_per_milli ≡ 0 = omega arith in
    omega (arith, ap (λ (t : ℕ). t * 2 ^ min (failures - 1) 20) none_left)

share_pos : (base maximum : ℕ) → 2 ≤ base → 0 < maximum → 0 < share base 75 maximum
share_pos base maximum two_base some_maximum = omega arith

-- Let the doubled delay be the initial one times two to the number of earlier failures in a row, of
-- which at most twenty count, up to the configured maximum, in whole milliseconds. For every maximum
-- that a `Duration` can hold, a backoff without a request of the collector lies between 75 and 125
-- percent of the doubled delay, both in whole milliseconds, up to a `u64` of them, and up to the
-- maximum. It is positive if both durations are at least two milliseconds; and it is zero after any
-- number of failures if the initial one is below a millisecond.
pub backoff_bounds :
    (subsec_nanos failures initial maximum : ℕ)
    → maximum ≤ duration_max
    → let delay = backoff none subsec_nanos failures initial maximum in
      let base = doubled failures initial maximum in
      (share base 75 maximum ≤ delay)
      × (delay ≤ share base 125 maximum)
      × ((2 * nanos_per_milli ≤ initial) × (2 * nanos_per_milli ≤ maximum) → 0 < delay)
      × (initial < nanos_per_milli → delay ≡ 0)
backoff_bounds subsec_nanos failures initial maximum h =
    let base = doubled failures initial maximum in
    let exact = backoff-share subsec_nanos failures initial maximum h in
    let percent = 75 + subsec_nanos % 51 in
    let low = share_mono base 75 percent maximum (omega arith) in
    let high = share_mono base percent 125 maximum (omega arith) in
    (
      omega (arith, exact, low),
      omega (arith, exact, high),
      λ long.
          let two_base = doubled_pos failures initial maximum long.0 long.1 in
          omega (arith, exact, low, share_pos base maximum two_base (omega (arith, long.1))),
      λ short. omega (arith, exact, high, doubled_zero failures initial maximum short),
    )
