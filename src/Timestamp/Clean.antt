-- ===== src/Timestamp/Clean.antt =====
-- The timestamps of crates/eden_logger/src/schema.rs need no escape in JSON.
use eden_logger.Base.{
  any-append, ℕ, zero, suc, ◌+◌, ◌≡◌, refl, inl, inr, true, false, [], ◌∷◌, arith, Bool-cases, any,
  all, Text,
}
use eden_logger.Decimal.{ℤ, pos, negsuc, Itoa, IsItoa, is_digit, zeros}
use eden_logger.Json.{needs_escape}
use eden_logger.Timestamp.{
  DateTime, pad_year, pad_two, pad_three, before_1000, write_timestamp_rfc3339,
}

digits-clean : (t : Text) → all is_digit t ≡ true → any needs_escape t ≡ false
unfolding needs_escape
digits-clean [] h = refl
digits-clean (c ∷ t) h = ground (arith, digits-clean t)

zeros-clean : (k : ℕ) → any needs_escape (zeros k) ≡ false
unfolding needs_escape
zeros-clean zero = refl
zeros-clean (suc k) = zeros-clean k

module _ {itoa : Itoa} (printed : IsItoa itoa) where
  pub unsigned-clean : (n : ℕ) → any needs_escape (itoa.unsigned n) ≡ false
  unsigned-clean n = digits-clean _ (printed.digits n)

  signed-clean : (z : ℤ) → any needs_escape (itoa.signed z) ≡ false
  signed-clean (pos n) = rw (printed.positive n) (unsigned-clean n)
  signed-clean (negsuc n) = rw (printed.negative n) (unfold needs_escape in unsigned-clean (n + 1))

  pad_year-clean : (z : ℤ) → any needs_escape (pad_year itoa z) ≡ false
  unfolding pad_year
  pad_year-clean z = elim (Bool-cases (before_1000 z)) [
    | inl early ↦ rw (early, any-append, zeros-clean, signed-clean z) refl
    | inr late ↦ rw (late, signed-clean z) refl
  ]

  pad_two-clean : (n : ℕ) → any needs_escape (pad_two itoa n) ≡ false
  unfolding pad_two needs_escape
  pad_two-clean n = ground (arith, unsigned-clean n)

  pad_three-clean : (n : ℕ) → any needs_escape (pad_three itoa n) ≡ false
  unfolding pad_three needs_escape
  pad_three-clean n = ground (arith, unsigned-clean n)

  pub write_timestamp_rfc3339-clean :
      (ts : DateTime) → any needs_escape (write_timestamp_rfc3339 itoa ts) ≡ false
  unfolding write_timestamp_rfc3339
  write_timestamp_rfc3339-clean ts =
      simp
        (
          any-append,
          pad_year-clean ts.year,
          pad_two-clean ts.month,
          pad_two-clean ts.day,
          pad_two-clean ts.hour,
          pad_two-clean ts.minute,
          pad_two-clean ts.second,
          pad_three-clean ts.millis,
        )
        (unfold needs_escape in refl)
