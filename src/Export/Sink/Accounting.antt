-- ===== src/Export/Sink/Accounting.antt =====
-- Every record that reaches the sink of crates/eden_logger_export/src/lib.rs is counted once, by what
-- becomes of it.
use eden_logger.Level.{LogLevel, LogAudience}
use eden_logger.Export.Claim.{SubmitResult, accepted, record_capacity, byte_capacity}
use eden_logger.Export.Claim.Bounds.{Within}
use eden_logger.Export.Shared.{Shared, emergency}
use eden_logger.Export.Collector.{
  normal_queue, reserved_queue, LogCollector, WorkerInput, submit, normal_counters,
  reserved_counters,
}
use eden_logger.Export.Collector.Accounting.Operations.{
  IsCounted, submit-IsCounted, moved-IsCounted,
}
use eden_logger.Export.Sink.{
  SinkFilter, count_stopped, count_filtered, count_result, is_filtered, is_priority, sink, sink_all,
}
use eden_logger.Export.Sink.Outcome.{Outcome, same_outcome, reading, bump}
use eden_logger.Export.Sink.Admission.{outcome_at, sink_admits}
use eden_logger.Base.{
  ℕ, ◌+◌, ◌%◌, ◌≡◌, refl, inl, inr, Bool, true, false, List, [], ◌∷◌, arith, Bool-cases, u64_mod,
}

abbrev one_if : Bool → ℕ
one_if true = 1
one_if false = 0

-- how often an outcome is in a list
abbrev pub times : Outcome → List Outcome → ℕ
times a [] = 0
times a (o ∷ outcomes) = one_if (same_outcome a o) + times a outcomes

bump-one_if :
    (grows : Bool) (before middle more after : ℕ)
    → middle ≡ bump grows before
    → after % u64_mod ≡ (middle + more) % u64_mod
    → after % u64_mod ≡ (before + (one_if grows + more)) % u64_mod
bump-one_if true before middle more after grown later = omega (arith, grown, later)
bump-one_if false before middle more after same later = omega (arith, same, later)

gauges-count_result :
    (now : ℕ) (r : SubmitResult) (s : Shared)
    → (normal_counters (count_result now r s) ≡ normal_counters s)
      × (reserved_counters (count_result now r s) ≡ reserved_counters s)
unfolding count_result emergency normal_counters reserved_counters
gauges-count_result now accepted s = (refl, refl)
gauges-count_result now record_capacity s = (ground arith, ground arith)
gauges-count_result now byte_capacity s = (ground arith, ground arith)

module _ {ℓ} {A : Type ℓ} (level : A → LogLevel) (audience : A → LogAudience) (size : A → ℕ) where
  IsCounted-shared :
      (c : LogCollector A) (input : WorkerInput A) (s : Shared)
      → (normal_counters s ≡ normal_counters c.shared)
        × (reserved_counters s ≡ reserved_counters c.shared)
      → IsCounted (c, input)
      → IsCounted (record c { shared = s }, input)
  IsCounted-shared c input s (n, r) v =
      moved-IsCounted c (record c { shared = s }) input input (n, r, refl, refl) v.clean (λ w. refl)
        v

  sink-IsCounted :
      (filter : SinkFilter) (now thread : ℕ) (log : A) (c : LogCollector A) (input : WorkerInput A)
      → IsCounted (c, input)
      → IsCounted (sink level audience size filter now thread log c, input)
  unfolding sink count_stopped count_filtered normal_counters reserved_counters
  sink-IsCounted filter now thread log c input v = elim (Bool-cases c.shared.accepting) [
    | inl ready ↦ elim (Bool-cases (is_filtered level audience size filter log)) [
      | inl e ↦ simp (ready, e) (IsCounted-shared c input _ (refl, refl) v)
      | inr e ↦
          let (after, result) =
            submit thread log (size log) (is_priority level audience size filter log) c in
          simp (ready, e)
            (IsCounted-shared after input _ (gauges-count_result now result after.shared)
              (submit-IsCounted c input thread log (size log) _ v))
    ]
    | inr closed ↦ simp closed (IsCounted-shared c input _ (refl, refl) v)
  ]

  IsCounted-Within :
      (c : LogCollector A) (input : WorkerInput A)
      → IsCounted (c, input)
      → Within (normal_counters c.shared) c.normal_limits
        × Within (reserved_counters c.shared) c.reserved_limits
  IsCounted-Within c input v = (v.balanced.within normal_queue, v.balanced.within reserved_queue)

  -- What should become of each of the records, at the state that the ones before it left.
  abbrev pub outcomes : SinkFilter → List (ℕ × ℕ × A) → LogCollector A → List Outcome
  outcomes filter [] c = []
  outcomes filter ((now, thread, log) ∷ calls) c =
      outcome_at level audience size filter log c
      ∷ outcomes filter calls (sink level audience size filter now thread log c)

  -- Over any sequence of emitted records, from gauges that show what the lanes and the worker's inbox
  -- hold, each of the five counters (the tickets of the taken records, the filtered ones, and those
  -- dropped after the stop, for want of room and for want of bytes) grows by the number of the
  -- records that should come to just that outcome, modulo 2^64; and the gauges still show what is
  -- held, so that no taken record is lost.
  pub sink_accounts :
      (filter : SinkFilter) (calls : List (ℕ × ℕ × A)) (c : LogCollector A) (input : WorkerInput A)
      → IsCounted (c, input)
      → let after = sink_all level audience size filter calls c in
        ((o : Outcome)
          → reading o after.shared % u64_mod
            ≡ (reading o c.shared + times o (outcomes filter calls c)) % u64_mod)
        × IsCounted (after, input)
  unfolding sink_all
  sink_accounts filter [] c input v = (λ o. omega arith, v)
  sink_accounts filter ((now, thread, log) ∷ calls) c input v =
      let (n, r) = IsCounted-Within c input v in
      let next = sink level audience size filter now thread log c in
      let settled = sink_admits level audience size filter now thread log c n r in
      let (rest, held) =
        sink_accounts filter calls next input (sink-IsCounted filter now thread log c input v) in
      (λ o. bump-one_if _ _ _ _ _ (settled.counted o) (rest o), held)
