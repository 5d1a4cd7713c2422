-- ===== src/Export/Collector.antt =====
-- `LaneQueues`, `ProducerLane` and `LogCollector` of
-- crates/eden_logger_export/src/collector.rs, and `WorkerInput` of worker.rs. Each operation runs
-- without another thread inside it; Claim/Threads has the interleavings of the counters. A thread
-- is a number; its entry in `LOCAL_PRODUCERS` is the lane with that number.
pub mod Drain
pub mod Order
pub mod Accounting
mod Tests
use eden_logger.Export.Shared.{Shared, with_metrics}
use eden_logger.Export.Claim.{
  ClaimFailure, combine, SubmitResult, accepted, submit_result, Counters, Limits, claim_queue,
  release_counters,
}
use eden_logger.Base.{
  ℕ, zero, suc, ◌+◌, ◌-◌, ◌*◌, ◌/◌, ◌%◌, ◌^◌, ◌≤◌, ◌<◌, min, max, bit_and, bit_or, ◌≡◌, refl, sym,
  ap, ◌∙◌, subst, ◌≢◌, ◌↔◌, ◌⊎◌, inl, inr, Bool, true, false, ◌&&◌, ◌||◌, not, Option, none, some,
  List, [], ◌∷◌, ◌++◌, map, append-nil, append_assoc, arith, ltb, leb, ◌==◌, if◌then◌else◌, ltb→lt,
  lt→ltb, leb→le, ==_iff, Bool-cases, Option-cases, ◌>>=◌, or_else, is_some, is_nil, length, take,
  drop, length-append, take-append-drop, length-take, length-drop, any, all, All, All-append,
  u64_mod, u64_max, u128_max, sat_add, sat_mul, wrap_add, wrap_sub, Text, codes, text_eq,
  text_eq_iff,
}

pub data QueueKind : Type 0 where
  normal_queue reserved_queue : QueueKind

pub record QueuedLog {ℓ} (A : Type ℓ) : Type ℓ where
  pub log : A
  pub queue : QueueKind
  pub bytes : ℕ
  pub ticket : ℕ

pub record LaneQueues {ℓ} (A : Type ℓ) : Type ℓ where
  pub normal : List (QueuedLog A)
  pub reserved : List (QueuedLog A)

pub record ProducerLane {ℓ} (A : Type ℓ) : Type ℓ where
  pub producer : ℕ
  pub queues : LaneQueues A
  pub worker_spare : Option (LaneQueues A)
  pub closed : Bool

pub record LogCollector {ℓ} (A : Type ℓ) : Type ℓ where
  pub normal_limits : Limits
  pub reserved_limits : Limits
  pub lanes : List (ProducerLane A)
  pub cursor : ℕ
  pub shared : Shared

pub record WorkerInput {ℓ} (A : Type ℓ) : Type ℓ where
  pub reserved : List (QueuedLog A)
  pub normal : List (QueuedLog A)

-- What a submission claimed: a slot of one queue, or none.
pub data Claimed : Type 0 where
  granted : QueueKind → Claimed
  refused : ClaimFailure → Claimed

unfoldable pub normal_counters : Shared → Counters
normal_counters s = record {
  depth = s.metrics.normal_queue_depth;
  byte_depth = s.metrics.normal_queue_bytes;
}

unfoldable pub reserved_counters : Shared → Counters
reserved_counters s = record {
  depth = s.metrics.reserved_queue_depth;
  byte_depth = s.metrics.reserved_queue_bytes;
}

unfoldable pub with_normal : Shared → Counters → Shared
with_normal s c =
    with_metrics s
      (record (s.metrics) { normal_queue_depth = c.depth; normal_queue_bytes = c.byte_depth })

unfoldable pub with_reserved : Shared → Counters → Shared
with_reserved s c =
    with_metrics s
      (record (s.metrics) { reserved_queue_depth = c.depth; reserved_queue_bytes = c.byte_depth })

-- The result of the two claims of a record of high priority.
unfoldable pub reserved_outcome : ClaimFailure → Option ClaimFailure → Claimed
reserved_outcome normal_failure none = granted reserved_queue
reserved_outcome normal_failure (some failure) = refused (combine normal_failure failure)

-- `LogCollector::release` on the counters
unfoldable pub release_slot : QueueKind → ℕ → Shared → Shared
release_slot normal_queue size s = with_normal s (release_counters (normal_counters s) size)
release_slot reserved_queue size s = with_reserved s (release_counters (reserved_counters s) size)

unfoldable pub claim_reserved : Limits → ℕ → ClaimFailure → Shared → Shared × Claimed
claim_reserved limits size failure s =
    let (after, outcome) = claim_queue (reserved_counters s) limits size in
    (with_reserved s after, reserved_outcome failure outcome)

-- After the claim of the normal queue.
unfoldable pub fall_back : Limits → ℕ → Bool → Option ClaimFailure → Shared → Shared × Claimed
fall_back limits size priority none s = (s, granted normal_queue)
fall_back limits size false (some failure) s = (s, refused failure)
fall_back limits size true (some failure) s = claim_reserved limits size failure s

unfoldable pub claim_slot : Limits → Limits → ℕ → Bool → Shared → Shared × Claimed
claim_slot normal_limits reserved_limits size priority s =
    let (after, outcome) = claim_queue (normal_counters s) normal_limits size in
    fall_back reserved_limits size priority outcome (with_normal s after)

module _ {ℓ} {A : Type ℓ} where
  abbrev pub no_queues : LaneQueues A
  no_queues = record { normal = []; reserved = [] }

  abbrev pub new_lane : ℕ → ProducerLane A
  new_lane thread = record {
    producer = thread;
    queues = no_queues;
    worker_spare = none;
    closed = false;
  }

  unfoldable pub queues_empty : LaneQueues A → Bool
  queues_empty q = is_nil q.normal && is_nil q.reserved

  unfoldable pub push_queue : QueueKind → QueuedLog A → LaneQueues A → LaneQueues A
  push_queue normal_queue log q = record q { normal = q.normal ++ log ∷ [] }
  push_queue reserved_queue log q = record q { reserved = q.reserved ++ log ∷ [] }

  -- `ProducerLane::push`, without the flag that wakes the worker
  unfoldable pub push : ProducerLane A → QueuedLog A → ProducerLane A
  push lane log = record lane { queues = push_queue log.queue log lane.queues }

  unfoldable pub is_closed_and_empty : ProducerLane A → Bool
  is_closed_and_empty lane = lane.closed && queues_empty lane.queues

  unfoldable pub spare_or_new : Option (LaneQueues A) → LaneQueues A
  spare_or_new none = no_queues
  spare_or_new (some spare) = spare

  -- `ProducerLane::take`: what it leaves; it returns `lane.queues`.
  unfoldable pub take_queues : ProducerLane A → ProducerLane A
  take_queues lane = record lane { queues = spare_or_new lane.worker_spare; worker_spare = none }

  unfoldable pub recycle : ProducerLane A → LaneQueues A → ProducerLane A
  recycle lane drained = record lane {
    worker_spare = if is_some lane.worker_spare then lane.worker_spare else some drained;
  }

  -- `NEXT_COLLECTOR_ID` is not modelled: no two collectors share a lane.
  unfoldable pub new_collector : Limits → Limits → Shared → LogCollector A
  new_collector normal_limits reserved_limits s = record {
    normal_limits = normal_limits;
    reserved_limits = reserved_limits;
    lanes = [];
    cursor = 0;
    shared = s;
  }

  unfoldable pub register_lane : ℕ → LogCollector A → LogCollector A
  register_lane thread c =
      let m = c.shared.metrics in
      record c {
        lanes = c.lanes ++ new_lane thread ∷ [];
        shared = with_metrics c.shared (record m { producer_lanes = wrap_add m.producer_lanes 1 });
      }

  unfoldable pub has_lane : ℕ → List (ProducerLane A) → Bool
  has_lane thread = any (λ lane. lane.producer == thread)

  unfoldable pub push_to : ℕ → QueuedLog A → List (ProducerLane A) → List (ProducerLane A)
  push_to thread log [] = []
  push_to thread log (lane ∷ lanes) =
      if lane.producer == thread then push lane log ∷ lanes else lane ∷ push_to thread log lanes

  unfoldable pub enqueue :
      ℕ → A → ℕ → LogCollector A → Shared × Claimed → LogCollector A × SubmitResult
  enqueue thread log size c (s, refused failure) = (record c { shared = s }, submit_result failure)
  enqueue thread log size c (s, granted queue) =
      let queued : QueuedLog A = record {
        log = log;
        queue = queue;
        bytes = size;
        ticket = sat_add s.next_ticket 1;
      } in
      (
        record c {
          lanes = push_to thread queued c.lanes;
          shared = record s { next_ticket = wrap_add s.next_ticket 1 };
        },
        accepted,
      )

  -- `size` is `estimated_size_bytes` of the record.
  unfoldable pub submit_to_lane : ℕ → A → ℕ → Bool → LogCollector A → LogCollector A × SubmitResult
  submit_to_lane thread log size priority c =
      enqueue thread log size c
        (claim_slot c.normal_limits c.reserved_limits size priority c.shared)

  unfoldable pub submit : ℕ → A → ℕ → Bool → LogCollector A → LogCollector A × SubmitResult
  submit thread log size priority c =
      submit_to_lane thread log size priority
        (if has_lane thread c.lanes then c else register_lane thread c)

  -- The thread ends: `Drop` of its entry.
  unfoldable pub close_lane : ℕ → List (ProducerLane A) → List (ProducerLane A)
  close_lane thread [] = []
  close_lane thread (lane ∷ lanes) =
      (if lane.producer == thread then record lane { closed = true } else lane)
      ∷ close_lane thread lanes

  -- `LogCollector::clear`
  unfoldable pub clear : LogCollector A → LogCollector A
  clear c = record c {
    lanes = [];
    cursor = 0;
    shared = with_metrics c.shared (record (c.shared.metrics) {
      producer_lanes = 0;
      normal_queue_depth = 0;
      reserved_queue_depth = 0;
      normal_queue_bytes = 0;
      reserved_queue_bytes = 0;
    });
  }

  abbrev pub new_input : WorkerInput A
  new_input = record { reserved = []; normal = [] }

  unfoldable pub pop_parts :
      List (QueuedLog A) → List (QueuedLog A) → Option (QueuedLog A × WorkerInput A)
  pop_parts (log ∷ reserved) normal = some (log, record { reserved = reserved; normal = normal })
  pop_parts [] (log ∷ normal) = some (log, record { reserved = []; normal = normal })
  pop_parts [] [] = none

  -- `WorkerInput::pop_front`
  unfoldable pub pop_front : WorkerInput A → Option (QueuedLog A × WorkerInput A)
  pop_front input = pop_parts input.reserved input.normal
