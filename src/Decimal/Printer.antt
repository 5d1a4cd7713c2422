-- ===== src/Decimal/Printer.antt =====
-- A printer of decimal texts with the behaviour that `itoa` documents.
use native.Mathlib.Omega.{pow_step}
use eden_logger.Base.{
  all-append_true, ℕ, zero, suc, ◌+◌, ◌/◌, ◌%◌, ◌^◌, ◌≤◌, ◌<◌, ◌≡◌, refl, ◌∙◌, inl, inr, true, [],
  ◌∷◌, ◌++◌, arith, ltb, if◌then◌else◌, Bool-cases, length, length-append, all, Text,
}
use eden_logger.Decimal.{ℤ, pos, negsuc, is_digit, decimal_value, decimal_value-snoc, Itoa, IsItoa}

-- the digits of a number, as many as the fuel allows
unfoldable pub print : ℕ → ℕ → Text
print zero n = (b'0' + n % 10) ∷ []
print (suc fuel) n =
    let front = print fuel (n / 10) in
    if ltb n 10 then (b'0' + n) ∷ [] else front ++ (b'0' + n % 10) ∷ []

print-digits : (fuel n : ℕ) → all is_digit (print fuel n) ≡ true
unfolding print
print-digits zero n = ground arith
print-digits (suc fuel) n = elim (Bool-cases (ltb n 10)) [
  | inl small ↦ rw small (ground arith)
  | inr large ↦
      rw large (
        all-append_true is_digit (print fuel (n / 10)) _ (print-digits fuel (n / 10))
          (ground arith))
]

print-value : (fuel n : ℕ) → n ≤ fuel → decimal_value 0 (print fuel n) ≡ n
unfolding print
print-value zero n h = unfold decimal_value in omega arith
print-value (suc fuel) n h = elim (Bool-cases (ltb n 10)) [
  | inl small ↦ rw small (unfold decimal_value in omega arith)
  | inr large ↦
      rw large
        (decimal_value-snoc 0 (print fuel (n / 10)) _ ∙ ground (arith, print-value fuel (n / 10)))
]

print-some : (fuel n : ℕ) → 1 ≤ length (print fuel n)
unfolding print
print-some zero n = omega arith
print-some (suc fuel) n = ground (arith, length-append (print fuel (n / 10)) ((b'0' + n % 10) ∷ []))

print-shortest : (fuel n k : ℕ) → n ≤ fuel → 1 ≤ k → n < 10 ^ k → length (print fuel n) ≤ k
unfolding print
print-shortest zero n k h one bound = one
print-shortest (suc fuel) n zero h one bound = absurd (omega arith)
print-shortest (suc fuel) n (suc zero) h one bound = ground arith
print-shortest (suc fuel) n (suc (suc k)) h one bound = ground (
  arith,
  print-shortest fuel (n / 10) (suc k),
  pow_step 10 (suc k),
  length-append (print fuel (n / 10)) ((b'0' + n % 10) ∷ []),
)

unfoldable pub print_signed : ℤ → Text
print_signed (pos n) = print n n
print_signed (negsuc n) = b'-' ∷ print (n + 1) (n + 1)

unfoldable pub printer : Itoa
printer = record { unsigned = λ n. print n n; signed = print_signed }

pub printer-IsItoa : IsItoa printer
unfolding printer print_signed
printer-IsItoa = record {
  digits = λ n. print-digits n n;
  value = λ n. print-value n n (omega arith);
  some_digit = λ n. print-some n n;
  shortest = λ n k. print-shortest n n k (omega arith);
  positive = λ n. refl;
  negative = λ n. refl;
}
