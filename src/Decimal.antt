-- ===== src/Decimal.antt =====
-- The decimal texts of whole numbers, which the `itoa` package prints and the formats of
-- crates/eden_logger/src/schema.rs contain: the package is a parameter, with what the formats rely
-- on.
pub mod Printer
use native.Mathlib.Nat.{mul_assoc, mul-le-mul_right, lt_of_lt_of_le}
use native.Mathlib.Omega.{pow_step}
use eden_logger.Base.{
  ℕ, zero, suc, ◌+◌, ◌-◌, ◌*◌, ◌/◌, ◌%◌, ◌^◌, ◌≤◌, ◌<◌, min, max, bit_and, bit_or, ◌≡◌, refl, sym,
  ap, ◌∙◌, subst, ◌≢◌, ◌↔◌, ◌⊎◌, inl, inr, Bool, true, false, ◌&&◌, ◌||◌, not, Option, none, some,
  List, [], ◌∷◌, ◌++◌, map, append-nil, append_assoc, arith, ltb, leb, ◌==◌, if◌then◌else◌, ltb→lt,
  lt→ltb, leb→le, ==_iff, Bool-cases, Option-cases, ◌>>=◌, or_else, is_some, is_nil, checked,
  checked-at, length, take, drop, length-append, take-append-drop, length-take, length-drop, any,
  all, All, All-append, u64_mod, u64_max, u128_max, sat_add, sat_mul, wrap_add, wrap_sub, Text,
  codes, text_eq, text_eq_iff,
}

pub data ℤ : Type 0 where
  pos negsuc : ℕ → ℤ

unfoldable pub int_eq : ℤ → ℤ → Bool
int_eq (pos m) (pos n) = m == n
int_eq (negsuc m) (negsuc n) = m == n
int_eq _ _ = false

pub int_eq_iff : (m n : ℤ) → (int_eq m n ≡ true) ↔ (m ≡ n)
unfolding int_eq
int_eq_iff (pos m) (pos n) = ground (arith, ==_iff m n)
int_eq_iff (pos m) (negsuc n) = ground arith
int_eq_iff (negsuc m) (pos n) = ground arith
int_eq_iff (negsuc m) (negsuc n) = ground (arith, ==_iff m n)

abbrev pub is_digit : ℕ → Bool
is_digit c = leb b'0' c && leb c b'9'

-- the number that the digits of a text stand for, behind those already read
unfoldable pub decimal_value : ℕ → Text → ℕ
decimal_value acc [] = acc
decimal_value acc (c ∷ t) = decimal_value (10 * acc + (c - b'0')) t

-- `itoa::Buffer::format`, at unsigned and at signed types
pub record Itoa : Type 0 where
  pub unsigned : ℕ → Text
  pub signed : ℤ → Text

-- The documented behaviour of `itoa`: decimal digits without leading zeros, behind a minus sign
-- where the number is negative.
pub record IsItoa (itoa : Itoa) : Type 0 where
  pub digits : (n : ℕ) → all is_digit (itoa.unsigned n) ≡ true
  pub value : (n : ℕ) → decimal_value 0 (itoa.unsigned n) ≡ n
  pub some_digit : (n : ℕ) → 1 ≤ length (itoa.unsigned n)
  pub shortest : (n k : ℕ) → 1 ≤ k → n < 10 ^ k → length (itoa.unsigned n) ≤ k
  pub positive : (n : ℕ) → itoa.signed (pos n) ≡ itoa.unsigned n
  pub negative : (n : ℕ) → itoa.signed (negsuc n) ≡ b'-' ∷ itoa.unsigned (n + 1)

-- a fixed number of digits at the front of a text, with their value
unfoldable pub read_digits : ℕ → ℕ → Text → Option (ℕ × Text)
read_digits zero acc t = some (acc, t)
read_digits (suc k) acc [] = none
read_digits (suc k) acc (c ∷ t) =
    let rest = read_digits k (10 * acc + (c - b'0')) t in if is_digit c then rest else none

pub read_digits-append :
    (acc : ℕ) (t rest : Text)
    → all is_digit t ≡ true
    → read_digits (length t) acc (t ++ rest) ≡ some (decimal_value acc t, rest)
unfolding read_digits decimal_value
read_digits-append acc [] rest h = refl
read_digits-append acc (c ∷ t) rest h =
    ground (arith, read_digits-append (10 * acc + (c - b'0')) t rest)

-- digits stand for less than ten to the power of their number
pub decimal_value-bound :
    (acc : ℕ) (t : Text) → all is_digit t ≡ true → decimal_value acc t < (acc + 1) * 10 ^ length t
unfolding decimal_value
decimal_value-bound acc [] h = omega arith
decimal_value-bound acc (c ∷ t) h =
    let below : 10 * acc + (c - b'0') + 1 ≤ (acc + 1) * 10 = ground arith in
    rw (pow_step, ← mul_assoc)
      (lt_of_lt_of_le (decimal_value-bound (10 * acc + (c - b'0')) t (ground arith))
        (mul-le-mul_right (10 ^ length t) below))

pub decimal_value-snoc :
    (acc : ℕ) (t : Text) (c : ℕ)
    → decimal_value acc (t ++ c ∷ []) ≡ 10 * decimal_value acc t + (c - b'0')
unfolding decimal_value
decimal_value-snoc acc [] c = refl
decimal_value-snoc acc (d ∷ t) c = decimal_value-snoc (10 * acc + (d - b'0')) t c

-- zeros in front change nothing
abbrev pub zeros : ℕ → Text
zeros zero = []
zeros (suc k) = b'0' ∷ zeros k
