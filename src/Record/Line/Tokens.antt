-- ===== src/Record/Line/Tokens.antt =====
-- The tokens in the JSON lines of crates/eden_logger/src/schema.rs: numbers and Boolean values.
use eden_logger.Base.{
  all-append, ℕ, ◌+◌, ◌≡◌, refl, Bool, true, false, ◌&&◌, Option, none, some, List, [], ◌∷◌, map,
  arith, leb, length, all, Text, codes,
}
use eden_logger.Decimal.{ℤ, pos, negsuc, is_digit, Itoa, IsItoa}
use eden_logger.Context.Additional.{Entries}
use eden_logger.Context.{
  Field, write_str, write_u64, write_i64, write_bool, write_display, RequestFields, LogContext,
}
use eden_logger.Record.{Pairs}
use eden_logger.Record.Object.{chunks, token, Member, is_token_byte}
use eden_logger.Record.Line.{
  field_member, optional, entry_member, pair_member, location_members, context_members,
}
use eden_logger.Json.RoundTrip.{is_visible}

-- a member whose token, if it has one, is visible and not empty
unfoldable pub is_token : Member → Bool
is_token (key, chunks ts) = true
is_token (key, token t) = all is_token_byte t && all is_visible t && leb 1 (length t)

digits-tokens : (t : Text) → all is_digit t ≡ true → all is_token_byte t ≡ true
digits-tokens [] h = refl
digits-tokens (c ∷ t) h = ground (arith, digits-tokens t)

digits-visible : (t : Text) → all is_digit t ≡ true → all is_visible t ≡ true
digits-visible [] h = refl
digits-visible (c ∷ t) h = ground (arith, digits-visible t)

optional-tokens : (key : Text) (o : Option Text) → all is_token (optional key o) ≡ true
unfolding optional is_token
optional-tokens key none = refl
optional-tokens key (some v) = refl

entries-tokens : (m : Entries) → all is_token (map entry_member m) ≡ true
unfolding is_token
entries-tokens [] = refl
entries-tokens ((k, v) ∷ m) = entries-tokens m

pairs-tokens : (pairs : Pairs) → all is_token (map pair_member pairs) ≡ true
unfolding is_token
pairs-tokens [] = refl
pairs-tokens ((k, ts) ∷ pairs) = pairs-tokens pairs

module _ {itoa : Itoa} (printed : IsItoa itoa) where
  unsigned-token : (key : Text) (n : ℕ) → is_token (key, token (itoa.unsigned n)) ≡ true
  unfolding is_token
  unsigned-token key n = ground (
    arith,
    digits-tokens (itoa.unsigned n) (printed.digits n),
    digits-visible (itoa.unsigned n) (printed.digits n),
    printed.some_digit n,
  )

  signed-token : (key : Text) (z : ℤ) → is_token (key, token (itoa.signed z)) ≡ true
  signed-token key (pos n) = rw (printed.positive n) (unsigned-token key n)
  signed-token key (negsuc n) = rw (printed.negative n) (
      unfold is_token in
      ground (
        arith,
        digits-tokens (itoa.unsigned (n + 1)) (printed.digits (n + 1)),
        digits-visible (itoa.unsigned (n + 1)) (printed.digits (n + 1)),
      ))

  fields-tokens : (fs : List Field) → all is_token (map (field_member itoa) fs) ≡ true
  unfolding field_member
  fields-tokens [] = refl
  fields-tokens (write_str k v ∷ fs) = rw (fields-tokens fs) (unfold is_token in refl)
  fields-tokens (write_u64 k v ∷ fs) = rw (unsigned-token k v) (fields-tokens fs)
  fields-tokens (write_i64 k v ∷ fs) = rw (signed-token k v) (fields-tokens fs)
  fields-tokens (write_bool k true ∷ fs) = rw (fields-tokens fs) (unfold is_token in refl)
  fields-tokens (write_bool k false ∷ fs) = rw (fields-tokens fs) (unfold is_token in refl)
  fields-tokens (write_display k ts ∷ fs) = rw (fields-tokens fs) (unfold is_token in refl)

  location-tokens :
      (file : Option Text) (line : Option ℕ) → all is_token (location_members itoa file line) ≡ true
  unfolding location_members
  location-tokens none line = refl
  location-tokens (some file) none = unfold is_token in refl
  location-tokens (some file) (some line) =
      rw (unsigned-token (codes "line") line) (unfold is_token in refl)

module _ {R : Type 0} where
  pub context_members-tokens :
      {itoa : Itoa}
      → IsItoa itoa
      → (fields : RequestFields R) (current : Option Text × Option Text) (message : Text)
        (context : LogContext R) (pairs : Pairs) (file : Option Text) (line : Option ℕ)
      → all is_token (context_members itoa fields current message context pairs file line) ≡ true
  unfolding context_members
  context_members-tokens {itoa} printed fields current message context pairs file line =
      simp
        (
          all-append,
          optional-tokens,
          entries-tokens,
          pairs-tokens,
          fields-tokens printed,
          location-tokens printed,
        )
        (unfold is_token in refl)
