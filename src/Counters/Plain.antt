-- ===== src/Counters/Plain.antt =====
-- A set of counters with the behaviour that `fast_telemetry` documents: a function from the indices.
use eden_logger.Base.{ℕ, ◌+◌, ◌≡◌, refl, ap, if◌then◌else◌}
use eden_logger.Decimal.{pos}
use eden_logger.Counters.{CounterSet, IsCounterSet, member, not_negative}

abbrev pub plain_set : CounterSet (ℕ → ℕ)
plain_set = record {
  new_set = λ i. 0;
  add_indices = λ c is i. if member i is then c i + 1 else c i;
  sum = λ c i. pos (c i);
}

pos_inj : (m n : ℕ) → pos m ≡ pos n → m ≡ n
unfolding not_negative
pos_inj m n e = ap not_negative e

pub plain_set-IsCounterSet : IsCounterSet plain_set
plain_set-IsCounterSet = record {
  sum_new = λ i. refl;
  sum_add = λ c is i n h. rw (pos_inj (c i) n h) refl;
}
