-- ===== src/Timestamp/Cache.antt =====
-- The timestamp cache of crates/eden_logger/src/schema.rs against plain formatting.
use eden_logger.Base.{
  ◌≡◌, refl, sym, ap, ◌∙◌, ◌≢◌, ◌⊎◌, inl, inr, List, [], ◌∷◌, map, Bool-cases, All,
}
use eden_logger.Decimal.{ℤ, Itoa, int_eq, int_eq_iff}
use eden_logger.Timestamp.{
  DateTime, TimestampCache, i64_min, new_timestamp_cache, write_timestamp_rfc3339,
  write_timestamp_rfc3339_now_cached, write_timestamps,
}

module _ (itoa : Itoa) (fields : ℤ → DateTime) where
  -- what the cache holds is the timestamp of its instant, except in a new cache
  abbrev pub IsFresh : TimestampCache → Type 0
  IsFresh cache =
      (cache.last_millis ≡ i64_min)
      ⊎ (cache.formatted ≡ write_timestamp_rfc3339 itoa (fields cache.last_millis))

  pub now_cached_step :
      (cache : TimestampCache) (now : ℤ)
      → IsFresh cache
      → now ≢ i64_min
      → (IsFresh (write_timestamp_rfc3339_now_cached itoa fields cache now).0)
        × ((write_timestamp_rfc3339_now_cached itoa fields cache now).1
            ≡ write_timestamp_rfc3339 itoa (fields now))
  unfolding write_timestamp_rfc3339_now_cached
  now_cached_step cache now fresh real = elim (Bool-cases (int_eq cache.last_millis now)) [
    | inr changed ↦ simp changed (inr refl, refl)
    | inl same ↦
        let at_now = (int_eq_iff cache.last_millis now).0 same in
        simp same (
          fresh,
          elim fresh [
            | inl old ↦ absurd (real (sym at_now ∙ old))
            | inr held ↦ held ∙ ap (λ m. write_timestamp_rfc3339 itoa (fields m)) at_now
          ],
        )
  ]

  from_fresh :
      (nows : List ℤ) (cache : TimestampCache)
      → IsFresh cache
      → All (λ now. now ≢ i64_min) nows
      → (write_timestamps itoa fields cache nows).1
        ≡ map (λ now. write_timestamp_rfc3339 itoa (fields now)) nows
  unfolding write_timestamps
  from_fresh [] cache fresh real = refl
  from_fresh (now ∷ nows) cache fresh real =
      let (kept, text) = now_cached_step cache now fresh real.0 in
      rw
        (
          text,
          from_fresh nows (write_timestamp_rfc3339_now_cached itoa fields cache now).0 kept real.1,
        )
        refl

  -- However many calls of a thread fall into one millisecond and whatever the order of the
  -- instants, the cache changes no timestamp: from a new cache, the texts written are those that
  -- plain formatting of each instant gives, as long as no instant is the least `i64`.
  pub write_timestamps_lem :
      (nows : List ℤ)
      → All (λ now. now ≢ i64_min) nows
      → (write_timestamps itoa fields new_timestamp_cache nows).1
        ≡ map (λ now. write_timestamp_rfc3339 itoa (fields now)) nows
  write_timestamps_lem nows real = from_fresh nows new_timestamp_cache (inl refl) real
