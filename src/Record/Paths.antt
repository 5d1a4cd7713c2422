-- ===== src/Record/Paths.antt =====
-- The two ways of crates/eden_logger/src/schema.rs to write a record: through an `EdenLog` and
-- directly from the context.
use eden_logger.Base.{ℕ, ◌≡◌, refl, ◌≢◌, Option, [], ◌∷◌, ◌++◌, append_assoc, Text}
use eden_logger.Level.{LogLevel, LogAudience}
use eden_logger.Decimal.{ℤ, Itoa}
use eden_logger.Timestamp.{DateTime, TimestampCache, i64_min}
use eden_logger.Timestamp.Cache.{IsFresh, now_cached_step}
use eden_logger.Context.Additional.{Entries, IterationOrder}
use eden_logger.Context.{RequestFields, LogContext, or_empty}
use eden_logger.Record.{Pairs, concat, insert_pairs, new_log, from_direct}
use eden_logger.Record.Display.{
  display_entries, display_pairs, write_display_log, write_display_direct,
}

-- the pairs as entries, in their order
unfoldable pub pair_entries : Pairs → Entries
pair_entries [] = []
pair_entries ((key, value) ∷ pairs) = (key, concat value) ∷ pair_entries pairs

-- The map of the record that `from_direct` builds is iterated in the order in which the direct path
-- writes: the entries of the context as they are iterated, then the pairs.
unfoldable pub IsInOrder : IterationOrder → Entries → Pairs → Type 0
IsInOrder o m pairs = insert_pairs ⦃o = o⦄ (o.arrange m) pairs ≡ m ++ pair_entries pairs

display_entries-append :
    (m n : Entries) → display_entries (m ++ n) ≡ display_entries m ++ display_entries n
unfolding display_entries
display_entries-append [] n = refl
display_entries-append ((k, v) ∷ m) n = rw (display_entries-append m n, append_assoc) refl

display_entries-pair_entries :
    (pairs : Pairs) → display_entries (pair_entries pairs) ≡ display_pairs pairs
unfolding display_entries pair_entries display_pairs
display_entries-pair_entries [] = refl
display_entries-pair_entries ((k, v) ∷ pairs) = rw (display_entries-pair_entries pairs) refl

module _ {R : Type 0} ⦃o : IterationOrder⦄ where
  -- The direct display line is the line of the record that the direct call gives the sink, where the
  -- map of that record is iterated in the order of the direct path. The cache holds the timestamp of
  -- its instant, which is not the least `i64`.
  pub write_display_direct_lem :
      (itoa : Itoa) (fields : RequestFields R) (instants : ℤ → DateTime) (cache : TimestampCache)
      (now : ℤ) (current : Option Text × Option Text) (level : LogLevel) (message : Text)
      (context : LogContext R) (audience : LogAudience) (pairs : Pairs) (file : Option Text)
      (line : Option ℕ)
      → IsFresh itoa instants cache
      → now ≢ i64_min
      → IsInOrder o (or_empty context.additional) pairs
      → (write_display_direct itoa fields instants cache now current level message context audience
          pairs file line).1
        ≡ write_display_log itoa fields
            (from_direct (instants now) current level message context audience pairs file line)
  unfolding write_display_direct write_display_log from_direct new_log IsInOrder
  write_display_direct_lem itoa fields instants cache now current level message context audience
        pairs file line fresh real in_order =
      let (kept, ts) = now_cached_step itoa instants cache now fresh real in
      rw
        (
          ts,
          in_order,
          display_entries-append (or_empty context.additional) (pair_entries pairs),
          display_entries-pair_entries pairs,
        )
        (simp append_assoc refl)
