-- ===== src/Export/Collector/Accounting.antt =====
-- The queue gauges against the records that the lanes and the worker's inbox hold, over any
-- sequence of submissions, drains and receptions.
pub mod Lanes
pub mod Drained
pub mod Slots
pub mod Operations
use eden_logger.Export.Shared.{Shared, new_shared, default_metrics}
use eden_logger.Export.Claim.{ClaimFailure, SubmitResult, Limits}
use eden_logger.Export.Collector.{
  QueueKind, normal_queue, reserved_queue, QueuedLog, ProducerLane, LogCollector, WorkerInput,
  Claimed, granted, refused, new_collector, register_lane, has_lane, new_lane, new_input, enqueue,
  submit_to_lane, submit, close_lane, clear, claim_slot, normal_counters, reserved_counters,
  release_slot, pop_front,
}
use eden_logger.Export.Collector.Drain.{
  retain, drain_into, refresh_empty, release_popped, try_receive, forget_lanes, drain_from,
}
use eden_logger.Export.Collector.Accounting.Lanes.{
  held, total, lanes_total, popped, popped-pop_parts, lanes_total-push_to, lanes_total-new_lane,
}
use eden_logger.Export.Collector.Accounting.Drained.{
  Clean, Clean-push_to, Clean-new_lane, close_lane-held, drain_into-held,
}
use eden_logger.Export.Collector.Accounting.Slots.{
  counters, same_kind, of_kind, Balanced, ClaimBalanced, Balanced-eq, claim_slot-Balanced,
  release_slot-Balanced,
}
use eden_logger.Base.{
  ℕ, zero, suc, ◌+◌, ◌-◌, ◌*◌, ◌/◌, ◌%◌, ◌^◌, ◌≤◌, ◌<◌, min, max, bit_and, bit_or, ◌≡◌, refl, sym,
  ap, ◌∙◌, subst, ◌≢◌, ◌↔◌, ◌⊎◌, inl, inr, Bool, true, false, ◌&&◌, ◌||◌, not, Option, none, some,
  List, [], ◌∷◌, ◌++◌, map, append-nil, append_assoc, arith, ltb, leb, ◌==◌, if◌then◌else◌, ltb→lt,
  lt→ltb, leb→le, ==_iff, Bool-cases, Option-cases, ◌>>=◌, or_else, is_some, is_nil, length, take,
  drop, length-append, take-append-drop, length-take, length-drop, any, all, All, All-append,
  u64_mod, u64_max, u128_max, sat_add, sat_mul, wrap_add, wrap_sub, Text, codes, text_eq,
  text_eq_iff,
}
use eden_logger.Export.Collector.Accounting.Operations.{
  IsU64, IsCounted, limits_of, submit-IsCounted, drain-IsCounted, receive-IsCounted,
  moved-IsCounted, cleared, zero-Balanced, fresh_counters,
}

module _ {ℓ} {A : Type ℓ} where
  -- One operation of a producer or of the worker.
  pub data Step : LogCollector A × WorkerInput A → LogCollector A × WorkerInput A → Type ℓ where
    submits :
        (c : LogCollector A) (input : WorkerInput A) (thread : ℕ) (log : A) (size : ℕ)
        (priority : Bool)
        → Step (c, input) ((submit thread log size priority c).0, input)
    ends :
        (c : LogCollector A) (input : WorkerInput A) (thread : ℕ)
        → Step (c, input) (record c { lanes = close_lane thread c.lanes }, input)
    refreshes : (c : LogCollector A) (input : WorkerInput A) → Step (c, input) (drain_into c input)
    receives :
        (c : LogCollector A) (input : WorkerInput A)
        → Step (c, input) ((try_receive c input).1, (try_receive c input).2)
    clears : (c : LogCollector A) (input : WorkerInput A) → Step (c, input) (clear c, new_input)

  pub data Reach (start : LogCollector A × WorkerInput A)
      : LogCollector A × WorkerInput A → Type ℓ where
    here : Reach start start
    next : {s t : LogCollector A × WorkerInput A} → Reach start s → Step s t → Reach start t

  Step-IsCounted : {s t : LogCollector A × WorkerInput A} → Step s t → IsCounted s → IsCounted t
  unfolding clear
  Step-IsCounted (submits c input thread log size priority) v =
      submit-IsCounted c input thread log size priority v
  Step-IsCounted (ends c input thread) v =
      moved-IsCounted c _ input input (refl, refl, refl, refl)
        (close_lane-held (λ x. 0) thread c.lanes v.clean).0
        (λ w. omega (arith, (close_lane-held w thread c.lanes v.clean).1)) v
  Step-IsCounted (refreshes c input) v = drain-IsCounted c input v
  Step-IsCounted (receives c input) v = receive-IsCounted c input v
  Step-IsCounted (clears c input) v = record {
    clean = unfold clear in tt;
    balanced =
        zero-Balanced _ _ (cleared c)
          (λ q. ((v.balanced.within q).capacity_le, (v.balanced.within q).byte_capacity_le));
  }

  Reach-IsCounted :
      {start t : LogCollector A × WorkerInput A} → Reach start t → IsCounted start → IsCounted t
  Reach-IsCounted here v = v
  Reach-IsCounted (next r st) v = Step-IsCounted st (Reach-IsCounted r v)

  -- Whatever producers submit and the worker drains, receives or clears, from a new collector on
  -- with limits that are `u64`: for each queue the gauges show the number and the bytes of the
  -- records of that queue that the lanes and the worker's inbox hold, and both stay within the
  -- limits of the queue.
  pub collector_accounts :
      (normal_limits reserved_limits : Limits) (interval : ℕ) {c : LogCollector A}
      {input : WorkerInput A}
      → IsU64 normal_limits
      → IsU64 reserved_limits
      → Reach
          (new_collector normal_limits reserved_limits (new_shared interval), new_input)
          (c, input)
      → IsCounted (c, input)
  collector_accounts normal_limits reserved_limits interval n r reach =
      Reach-IsCounted reach (record {
        clean = unfold new_collector in tt;
        balanced = unfold new_collector in zero-Balanced _ _ (fresh_counters interval) fits;
      })
    where
      fits :
          (q : QueueKind)
          → IsU64 (
              limits_of
                (new_collector {A = A} normal_limits reserved_limits (new_shared interval))
                q)
      fits normal_queue = unfold new_collector in n
      fits reserved_queue = unfold new_collector in r
