-- ===== src/Counters/Totals.antt =====
-- What the counters of crates/eden_logger/src/metrics.rs show after records are emitted.
use eden_logger.Base.{
  ℕ, ◌+◌, ◌≡◌, refl, ap, ◌∙◌, Bool, true, false, List, [], ◌∷◌, arith, if◌then◌else◌, length,
}
use eden_logger.Level.{
  level_eq, LogLevel, trace, debug, info, warn, error, LogAudience, internal, client, both,
}
use eden_logger.Decimal.{pos}
use eden_logger.Counters.{
  CounterSet, IsCounterSet, member, level_counter_idx, audience_counter_idx, not_negative,
  counter_value, record_emitted, log_metrics_snapshot,
}

abbrev pub Emitted : Type 0
Emitted = List (LogLevel × LogAudience)

-- the emitted records of which a counter counts
unfoldable pub count_at : ℕ → Emitted → ℕ
count_at i [] = 0
count_at i ((level, audience) ∷ emitted) =
    (if member i (0 ∷ level_counter_idx level ∷ audience_counter_idx audience ∷ []) then 1 else 0)
    + count_at i emitted

module _ {C : Type 0} (set : CounterSet C) where
  -- the latest record stands first
  unfoldable pub record_all : Emitted → C
  record_all [] = set.new_set
  record_all ((level, audience) ∷ emitted) = record_emitted set (record_all emitted) level audience

  sum_record_all :
      IsCounterSet set
      → (emitted : Emitted) (i : ℕ) → set.sum (record_all emitted) i ≡ pos (count_at i emitted)
  unfolding record_all record_emitted count_at
  sum_record_all laws [] i = laws.sum_new i
  sum_record_all laws ((level, audience) ∷ emitted) i =
      laws.sum_add (record_all emitted) _ i (count_at i emitted) (sum_record_all laws emitted i)
      ∙ ap pos (ground arith)

count_split :
    (emitted : Emitted)
    → (count_at 0 emitted ≡ length emitted)
      × (length emitted
          ≡ count_at 1 emitted
            + count_at 2 emitted
            + count_at 3 emitted
            + count_at 4 emitted
            + count_at 5 emitted)
      × (length emitted ≡ count_at 6 emitted + count_at 7 emitted + count_at 8 emitted)
unfolding count_at level_counter_idx audience_counter_idx
count_split [] = (omega arith, omega arith, omega arith)
count_split ((level, audience) ∷ emitted) = ground (arith, count_split emitted)

-- the emitted records of a level
unfoldable pub count_level : LogLevel → Emitted → ℕ
count_level l [] = 0
count_level l ((level, audience) ∷ emitted) =
    (if level_eq level l then 1 else 0) + count_level l emitted

audience_eq : LogAudience → LogAudience → Bool
audience_eq internal internal = true
audience_eq client client = true
audience_eq both both = true
audience_eq _ _ = false

-- the emitted records of an audience
unfoldable pub count_audience : LogAudience → Emitted → ℕ
unfolding audience_eq
count_audience a [] = 0
count_audience a ((level, audience) ∷ emitted) =
    (if audience_eq audience a then 1 else 0) + count_audience a emitted

count_at-level :
    (l : LogLevel) (emitted : Emitted)
    → count_at (level_counter_idx l) emitted ≡ count_level l emitted
unfolding count_at count_level level_counter_idx audience_counter_idx
count_at-level l [] = refl
count_at-level l ((level, audience) ∷ emitted) = ground (arith, count_at-level l emitted)

count_at-audience :
    (a : LogAudience) (emitted : Emitted)
    → count_at (audience_counter_idx a) emitted ≡ count_audience a emitted
unfolding count_at count_audience level_counter_idx audience_counter_idx audience_eq
count_at-audience a [] = refl
count_at-audience a ((level, audience) ∷ emitted) = ground (arith, count_at-audience a emitted)

module _ {C : Type 0} (set : CounterSet C) where
  counter_value-at :
      IsCounterSet set
      → (emitted : Emitted) (i : ℕ)
      → counter_value set (record_all set emitted) i ≡ count_at i emitted
  unfolding counter_value
  counter_value-at laws emitted i =
      rw (sum_record_all set laws emitted i) (unfold not_negative in refl)

  -- The snapshot after any records are emitted counts them: in all, by level and by audience; and
  -- the counts of the levels, like those of the audiences, add up to the total.
  pub log_metrics_snapshot-record_all :
      IsCounterSet set
      → (emitted : Emitted)
      → let s = log_metrics_snapshot set (record_all set emitted) in
        (s.emitted_total ≡ length emitted)
        × ((l : LogLevel) → s.by_level l ≡ count_level l emitted)
        × ((a : LogAudience) → s.by_audience a ≡ count_audience a emitted)
        × (s.emitted_total
            ≡ s.by_level trace
              + s.by_level debug
              + s.by_level info
              + s.by_level warn
              + s.by_level error)
        × (s.emitted_total ≡ s.by_audience internal + s.by_audience client + s.by_audience both)
  unfolding log_metrics_snapshot level_counter_idx audience_counter_idx
  log_metrics_snapshot-record_all laws emitted =
      let (total, levels, audiences) = count_split emitted in
      simp (counter_value-at laws emitted) (
        total,
        (λ l. count_at-level l emitted),
        (λ a. count_at-audience a emitted),
        total ∙ levels,
        total ∙ audiences,
      )
