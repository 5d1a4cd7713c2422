-- ===== src/Counters.antt =====
-- The counters of crates/eden_logger/src/metrics.rs. The set of counters of the `fast_telemetry`
-- package is a parameter.
pub mod Totals
pub mod Plain
mod Tests
use eden_logger.Base.{
  ℕ, zero, suc, ◌+◌, ◌-◌, ◌*◌, ◌/◌, ◌%◌, ◌^◌, ◌≤◌, ◌<◌, min, max, bit_and, bit_or, ◌≡◌, refl, sym,
  ap, ◌∙◌, subst, ◌≢◌, ◌↔◌, ◌⊎◌, inl, inr, Bool, true, false, ◌&&◌, ◌||◌, not, Option, none, some,
  List, [], ◌∷◌, ◌++◌, map, append-nil, append_assoc, arith, ltb, leb, ◌==◌, if◌then◌else◌, ltb→lt,
  lt→ltb, leb→le, ==_iff, Bool-cases, Option-cases, ◌>>=◌, or_else, is_some, is_nil, checked,
  checked-at, length, take, drop, length-append, take-append-drop, length-take, length-drop, any,
  all, All, All-append, u64_mod, u64_max, u128_max, sat_add, sat_mul, wrap_add, wrap_sub, Text,
  codes, text_eq, text_eq_iff,
}
use eden_logger.Level.{
  LogLevel, trace, debug, info, warn, error, LogAudience, internal, client, both, level_index,
}
use eden_logger.Decimal.{ℤ, pos, negsuc}

-- `CounterSet`: `sum` adds up the shards of a counter.
pub record CounterSet (C : Type 0) : Type 0 where
  pub new_set : C
  pub add_indices : C → List ℕ → C
  pub sum : C → ℕ → ℤ

abbrev pub member : ℕ → List ℕ → Bool
member i = any (λ j. j == i)

-- The documented behaviour of the set, for different indices: adding one to some counters adds
-- one to each of these and changes no other.
pub record IsCounterSet {C : Type 0} (set : CounterSet C) : Type 0 where
  pub sum_new : (i : ℕ) → set.sum set.new_set i ≡ pos 0
  pub sum_add :
      (c : C) (is : List ℕ) (i n : ℕ)
      → set.sum c i ≡ pos n
      → set.sum (set.add_indices c is) i ≡ pos (if member i is then n + 1 else n)

unfoldable pub level_counter_idx : LogLevel → ℕ
level_counter_idx trace = 1
level_counter_idx debug = 2
level_counter_idx info = 3
level_counter_idx warn = 4
level_counter_idx error = 5

unfoldable pub audience_counter_idx : LogAudience → ℕ
audience_counter_idx internal = 6
audience_counter_idx client = 7
audience_counter_idx both = 8

-- `.max(0) as u64`
unfoldable pub not_negative : ℤ → ℕ
not_negative (pos n) = n
not_negative (negsuc n) = 0

-- `i64::try_from(value).unwrap_or(i64::MAX)`
unfoldable pub counter_i64 : ℕ → ℕ
counter_i64 value = min value (2 ^ 63 - 1)

pub record LogMetricsSnapshot : Type 0 where
  pub emitted_total : ℕ
  pub by_level : LogLevel → ℕ
  pub by_audience : LogAudience → ℕ

-- a call of `MetricVisitor::counter`: the label's value and the count
abbrev pub Sample : Type 0
Sample = Text × ℕ

module _ {C : Type 0} (set : CounterSet C) where
  unfoldable pub counter_value : C → ℕ → ℕ
  counter_value c i = not_negative (set.sum c i)

  unfoldable pub record_emitted : C → LogLevel → LogAudience → C
  record_emitted c level audience =
      set.add_indices c (0 ∷ level_counter_idx level ∷ audience_counter_idx audience ∷ [])

  unfoldable pub log_metrics_snapshot : C → LogMetricsSnapshot
  log_metrics_snapshot c = record {
    emitted_total = counter_value c 0;
    by_level = λ level. counter_value c (level_counter_idx level);
    by_audience = λ audience. counter_value c (audience_counter_idx audience);
  }

  unfoldable pub visit_log_metrics : C → List Sample
  visit_log_metrics c =
      let s = log_metrics_snapshot c in
      ([], counter_i64 s.emitted_total)
      ∷ (codes "trace", counter_i64 (s.by_level trace))
      ∷ (codes "debug", counter_i64 (s.by_level debug))
      ∷ (codes "info", counter_i64 (s.by_level info))
      ∷ (codes "warn", counter_i64 (s.by_level warn))
      ∷ (codes "error", counter_i64 (s.by_level error))
      ∷ (codes "internal", counter_i64 (s.by_audience internal))
      ∷ (codes "client", counter_i64 (s.by_audience client))
      ∷ (codes "both", counter_i64 (s.by_audience both))
      ∷ []
