-- ===== src/Export/Sink/Admission.antt =====
-- What the sink of crates/eden_logger_export/src/lib.rs does with a record: which counter grows, and
-- what the lanes of the collector hold afterwards.
use eden_logger.Level.{LogLevel, LogAudience}
use eden_logger.Export.Config.{allows}
use eden_logger.Export.Claim.{SubmitResult, records, bytes, submit_result}
use eden_logger.Export.Claim.Bounds.{Within}
use eden_logger.Export.Shared.{Shared}
use eden_logger.Export.Collector.{
  QueueKind, normal_queue, reserved_queue, QueuedLog, LogCollector, Claimed, granted, refused,
  submit, submit_to_lane, enqueue, register_lane, has_lane, claim_slot, normal_counters,
  reserved_counters,
}
use eden_logger.Export.Sink.{
  SinkFilter, count_stopped, count_filtered, count_result, is_filtered, is_priority, sink,
}
use eden_logger.Export.Sink.Lanes.{
  lane_records, same_kind, if_so, entry, lane_records-push_to, lane_records-register,
}
use eden_logger.Export.Sink.Outcome.{
  Outcome, taken, filtered_out, after_stop, no_record_room, no_byte_room, same_outcome, reading,
  bump, passes, is_urgent, queue_for, bytes_short, outcome_of, outcome_for, queue_of, is_short,
  claim_slot-queue_for, reading-claim_slot, reading-emergency,
}
use eden_logger.Base.{
  ℕ, ◌≡◌, refl, sym, ap, ◌∙◌, inl, inr, Bool, true, false, ◌&&◌, not, Option, none, some, List,
  ◌++◌, append-nil, arith, ◌==◌, Bool-cases, sat_add,
}

module _ {ℓ} {A : Type ℓ} where
  lane_records-enqueue :
      (t thread : ℕ) (kind : QueueKind) (log : A) (n : ℕ) (c : LogCollector A)
      (p : Shared × Claimed)
      → has_lane thread c.lanes ≡ true
      → lane_records t kind (enqueue thread log n c p).0.lanes
        ≡ lane_records t kind c.lanes
          ++ if_so
              (thread == t && same_kind kind (queue_of p.1))
              (entry log n (sat_add p.0.next_ticket 1) kind)
  unfolding enqueue
  lane_records-enqueue t thread kind log n c (s, refused f) h =
      ground (arith, append-nil (lane_records t kind c.lanes))
  lane_records-enqueue t thread kind log n c (s, granted k) h =
      lane_records-push_to t thread kind k log n (sat_add s.next_ticket 1) c.lanes h

  reading-enqueue :
      (o : Outcome) (now thread : ℕ) (log : A) (n : ℕ) (c : LogCollector A) (p : Shared × Claimed)
      → let (after, result) = enqueue thread log n c p in
        reading o (count_result now result after.shared)
        ≡ bump (same_outcome o (outcome_of (queue_of p.1) (is_short p.1))) (reading o p.0)
  unfolding enqueue count_result submit_result
  reading-enqueue o now thread log n c (s, granted k) = ground arith
  reading-enqueue o now thread log n c (s, refused records) =
      reading-emergency o now _ _ ∙ ground arith
  reading-enqueue o now thread log n c (s, refused bytes) =
      reading-emergency o now _ _ ∙ ground arith

  -- A record of a size, emitted by a thread, came to an outcome: the counter of the outcome alone
  -- grew, and if a queue took the record, it is the last one of that queue in the lane of the thread,
  -- and nothing else about the lanes' records changed.
  pub record IsSettled (o : Outcome) (queue : Option QueueKind) (thread : ℕ) (log : A) (n : ℕ)
      (c after : LogCollector A) : Type ℓ where
    pub counted :
        (a : Outcome) → reading a after.shared ≡ bump (same_outcome a o) (reading a c.shared)
    pub queued :
        (t : ℕ) (kind : QueueKind)
        → lane_records t kind after.lanes
          ≡ lane_records t kind c.lanes
            ++ if_so
                (thread == t && same_kind kind queue)
                (entry log n (sat_add c.shared.next_ticket 1) kind)

  no_entry :
      (mine : Bool) (kind : QueueKind) (x : QueuedLog A) (xs : List (QueuedLog A))
      → xs ≡ xs ++ if_so (mine && same_kind kind none) x
  no_entry false kind x xs = sym (append-nil xs)
  no_entry true normal_queue x xs = sym (append-nil xs)
  no_entry true reserved_queue x xs = sym (append-nil xs)

  IsSettled-unqueued :
      (o : Outcome) (thread : ℕ) (log : A) (n : ℕ) (c after : LogCollector A)
      → after.lanes ≡ c.lanes
      → ((a : Outcome) → reading a after.shared ≡ bump (same_outcome a o) (reading a c.shared))
      → IsSettled o none thread log n c after
  IsSettled-unqueued o thread log n c after kept counts = record {
    counted = counts;
    queued = λ t kind.
        ap (lane_records t kind) kept
        ∙ no_entry (thread == t) kind (entry log n (sat_add c.shared.next_ticket 1) kind) _;
  }

  reading-register_lane :
      (a : Outcome) (thread : ℕ) (c : LogCollector A)
      → reading a (register_lane thread c).shared ≡ reading a c.shared
  unfolding register_lane
  reading-register_lane a thread c = ground arith

  IsSettled-register :
      (o : Outcome) (queue : Option QueueKind) (thread : ℕ) (log : A) (n : ℕ)
      (c after : LogCollector A)
      → IsSettled o queue thread log n (register_lane thread c) after
      → IsSettled o queue thread log n c after
  unfolding register_lane
  IsSettled-register o queue thread log n c after v = record {
    counted = λ a. v.counted a ∙ ap (bump (same_outcome a o)) (reading-register_lane a thread c);
    queued = λ t kind.
        v.queued t kind
        ∙ ap
            (λ xs.
              xs
              ++ if_so (thread == t && same_kind kind queue)
                  (entry log n (sat_add c.shared.next_ticket 1) kind))
            (lane_records-register t thread kind c.lanes).0;
  }

  -- the collector after `submit`, its result counted
  abbrev submitted : ℕ → LogCollector A × SubmitResult → LogCollector A
  submitted now (after, result) = record after { shared = count_result now result after.shared }

  submit-IsSettled :
      (now thread : ℕ) (log : A) (n : ℕ) (urgent : Bool) (c : LogCollector A)
      → Within (normal_counters c.shared) c.normal_limits
      → Within (reserved_counters c.shared) c.reserved_limits
      → let queue = queue_for c.normal_limits c.reserved_limits n urgent c.shared in
        let short = bytes_short c.normal_limits c.reserved_limits n urgent c.shared in
        IsSettled
          (outcome_of queue short)
          queue
          thread
          log
          n
          c
          (submitted now (submit thread log n urgent c))
  unfolding submit submit_to_lane register_lane normal_counters reserved_counters
  submit-IsSettled now thread log n urgent c wl wr = elim (Bool-cases (has_lane thread c.lanes)) [
    | inl e ↦ rw e (claimed c e wl wr)
    | inr e ↦
        let there = (lane_records-register 0 thread normal_queue c.lanes).1 in
        rw e
          (IsSettled-register _ _ thread log n c _ (claimed (register_lane thread c) there wl wr))
  ]
    where
      claimed :
          (d : LogCollector A)
          → has_lane thread d.lanes ≡ true
          → Within (normal_counters d.shared) d.normal_limits
          → Within (reserved_counters d.shared) d.reserved_limits
          → let queue = queue_for d.normal_limits d.reserved_limits n urgent d.shared in
            let short = bytes_short d.normal_limits d.reserved_limits n urgent d.shared in
            IsSettled (outcome_of queue short) queue thread log n d (
              submitted now (
                enqueue thread log n d
                  (claim_slot d.normal_limits d.reserved_limits n urgent d.shared)))
      claimed d h vl vr =
          let p = claim_slot d.normal_limits d.reserved_limits n urgent d.shared in
          let (chosen, came) =
            claim_slot-queue_for d.normal_limits d.reserved_limits n urgent d.shared vl vr in
          let same : (o : Outcome) → reading o p.0 ≡ reading o d.shared =
            λ o. reading-claim_slot o d.normal_limits d.reserved_limits n urgent d.shared in
          record {
            counted = λ o. reading-enqueue o now thread log n d p ∙ rw (came, same o) refl;
            queued = λ t kind.
                lane_records-enqueue t thread kind log n d p h ∙ rw (chosen, same taken) refl;
          }

-- the queue of a record that comes to an outcome
abbrev pub destination : Outcome → Option QueueKind → Option QueueKind
destination taken queue = queue
destination filtered_out queue = none
destination after_stop queue = none
destination no_record_room queue = none
destination no_byte_room queue = none

destination-outcome_of :
    (queue : Option QueueKind) (short : Bool) → destination (outcome_of queue short) queue ≡ queue
destination-outcome_of none short = ground arith
destination-outcome_of (some q) short = refl

module _ {ℓ} {A : Type ℓ} (level : A → LogLevel) (audience : A → LogAudience) (size : A → ℕ) where
  is_filtered-passes :
      (filter : SinkFilter) (log : A)
      → is_filtered level audience size filter log ≡ not (passes filter (level log) (audience log))
  unfolding is_filtered allows
  is_filtered-passes filter log = ground arith

  is_priority-is_urgent :
      (filter : SinkFilter) (log : A)
      → is_priority level audience size filter log ≡ is_urgent filter (level log)
  unfolding is_priority
  is_priority-is_urgent filter log = refl

  -- The queue with room for a record, and what should become of the record.
  abbrev pub queue_at : SinkFilter → A → LogCollector A → Option QueueKind
  queue_at filter log c =
      queue_for c.normal_limits c.reserved_limits (size log) (is_urgent filter (level log)) c.shared

  abbrev pub outcome_at : SinkFilter → A → LogCollector A → Outcome
  outcome_at filter log c =
      outcome_for c.shared.accepting (passes filter (level log) (audience log))
        (queue_at filter log c)
        (bytes_short c.normal_limits c.reserved_limits (size log) (is_urgent filter (level log))
          c.shared)

  -- With gauges within their limits, the sink does with a record what it should. After the exporter
  -- stopped accepting, the record is counted as dropped after the stop; a record below the least
  -- level, or of an audience that is not listed, as filtered out; and a record with room in the
  -- normal queue, or else with a level from the priority threshold on and room in the reserved one,
  -- is taken: it gets the next ticket and is the last one of that queue in the lane of its thread.
  -- Every other record is counted as dropped for bytes where these are short in a queue that it may
  -- use, and for the number of records otherwise. No other of the five counters changes, and the
  -- lanes hold no other new record and have lost none.
  pub sink_admits :
      (filter : SinkFilter) (now thread : ℕ) (log : A) (c : LogCollector A)
      → Within (normal_counters c.shared) c.normal_limits
      → Within (reserved_counters c.shared) c.reserved_limits
      → IsSettled
          (outcome_at filter log c)
          (destination (outcome_at filter log c) (queue_at filter log c))
          thread
          log
          (size log)
          c
          (sink level audience size filter now thread log c)
  unfolding sink count_stopped count_filtered
  sink_admits filter now thread log c wl wr =
      rw (is_filtered-passes filter log, is_priority-is_urgent filter log)
        (elim (Bool-cases c.shared.accepting) [
          | inl ready ↦ elim (Bool-cases (passes filter (level log) (audience log))) [
            | inl good ↦
                simp (ready, good, destination-outcome_of)
                  (submit-IsSettled now thread log (size log) (is_urgent filter (level log)) c wl
                    wr)
            | inr bad ↦
                simp (ready, bad)
                  (IsSettled-unqueued filtered_out thread log (size log) c _ refl
                    (λ a. ground arith))
          ]
          | inr closed ↦
              simp closed
                (IsSettled-unqueued after_stop thread log (size log) c _ refl (λ a. ground arith))
        ])
