-- ===== src/Export/Sink/Outcome.antt =====
-- What should become of a record that reaches the sink of crates/eden_logger_export/src/lib.rs,
-- written without the sink's own tests, and the claims of queue slots in these terms.
use eden_logger.Level.{LogLevel, LogAudience, internal, client, both, level_index}
use eden_logger.Export.Config.{AudienceFilter}
use eden_logger.Export.Claim.{ClaimFailure, records, bytes, Counters, Limits, claim_queue, combine}
use eden_logger.Export.Claim.Bounds.{Within, claim_queue_lem}
use eden_logger.Export.Shared.{Shared, emergency}
use eden_logger.Export.Collector.{
  QueueKind, normal_queue, reserved_queue, Claimed, granted, refused, claim_slot, fall_back,
  claim_reserved, reserved_outcome, with_normal, with_reserved, normal_counters, reserved_counters,
}
use eden_logger.Export.Sink.{SinkFilter}
use eden_logger.Base.{
  ℕ, ◌+◌, ◌≡◌, refl, ◌∙◌, Bool, true, false, ◌&&◌, ◌||◌, not, Option, none, some, arith, leb, ◌==◌,
  if◌then◌else◌, wrap_add, Text,
}

-- A record is taken, or it is not for one of four reasons.
pub data Outcome : Type 0 where
  taken filtered_out after_stop no_record_room no_byte_room : Outcome

abbrev outcome_index : Outcome → ℕ
outcome_index taken = 0
outcome_index filtered_out = 1
outcome_index after_stop = 2
outcome_index no_record_room = 3
outcome_index no_byte_room = 4

abbrev pub same_outcome : Outcome → Outcome → Bool
same_outcome a b = outcome_index a == outcome_index b

-- The counter of each outcome: the tickets count the records that are taken.
abbrev pub reading : Outcome → Shared → ℕ
reading taken s = s.next_ticket
reading filtered_out s = s.metrics.filtered
reading after_stop s = s.metrics.dropped_stopped
reading no_record_room s = s.metrics.dropped_queue_full
reading no_byte_room s = s.metrics.dropped_queue_bytes_full

abbrev pub bump : Bool → ℕ → ℕ
bump true n = wrap_add n 1
bump false n = n

-- The audiences that a filter lists.
abbrev pub lists : AudienceFilter → LogAudience → Bool
lists filter internal = filter.internal
lists filter client = filter.client
lists filter both = filter.both

-- The level is at least the least one, and the audience is listed.
abbrev pub passes : SinkFilter → LogLevel → LogAudience → Bool
passes filter level audience =
    leb (level_index filter.min_level) (level_index level) && lists filter.audiences audience

abbrev pub is_urgent : SinkFilter → LogLevel → Bool
is_urgent filter level = leb (level_index filter.priority_threshold) (level_index level)

-- One more record of a size keeps the bytes, and the number, of a queue within its limits.
abbrev pub bytes_fit : Counters → Limits → ℕ → Bool
bytes_fit c l n = leb (c.byte_depth + n) l.byte_capacity

abbrev pub fits : Counters → Limits → ℕ → Bool
fits c l n = bytes_fit c l n && leb (c.depth + 1) l.capacity

-- The queue that a record goes to: the normal one, or, if it is urgent, the reserved one.
abbrev pub queue_for : Limits → Limits → ℕ → Bool → Shared → Option QueueKind
queue_for l r n urgent s =
    if fits (normal_counters s) l n
    then some normal_queue
    else if urgent && fits (reserved_counters s) r n
    then some reserved_queue
    else none

-- Bytes are short in a queue that was tried.
abbrev pub bytes_short : Limits → Limits → ℕ → Bool → Shared → Bool
bytes_short l r n urgent s =
    not (bytes_fit (normal_counters s) l n) || urgent && not (bytes_fit (reserved_counters s) r n)

abbrev pub outcome_of : Option QueueKind → Bool → Outcome
outcome_of (some q) short = taken
outcome_of none true = no_byte_room
outcome_of none false = no_record_room

abbrev pub outcome_for : Bool → Bool → Option QueueKind → Bool → Outcome
outcome_for false passing queue short = after_stop
outcome_for true false queue short = filtered_out
outcome_for true true queue short = outcome_of queue short

-- what a claim found
abbrev pub queue_of : Claimed → Option QueueKind
queue_of (granted q) = some q
queue_of (refused f) = none

abbrev pub is_short : Claimed → Bool
is_short (granted q) = false
is_short (refused records) = false
is_short (refused bytes) = true

failure_of : Counters → Limits → ℕ → Option ClaimFailure
failure_of c l n =
    if bytes_fit c l n
    then (if leb (c.depth + 1) l.capacity then none else some records)
    else some bytes

claim_queue-failure_of :
    (c : Counters) (l : Limits) (n : ℕ) → Within c l → (claim_queue c l n).1 ≡ failure_of c l n
unfolding failure_of
claim_queue-failure_of c l n w = ground (arith, claim_queue_lem c l n w)

decide : Bool → Option ClaimFailure → Option ClaimFailure → Claimed
decide urgent none second = granted normal_queue
decide false (some f) second = refused f
decide true (some f) second = reserved_outcome f second

fall_back-decide :
    (r : Limits) (n : ℕ) (urgent : Bool) (first : Option ClaimFailure) (s : Shared)
    → Within (reserved_counters s) r
    → (fall_back r n urgent first s).1 ≡ decide urgent first (failure_of (reserved_counters s) r n)
unfolding fall_back decide claim_reserved
fall_back-decide r n urgent none s w = refl
fall_back-decide r n false (some f) s w = refl
fall_back-decide r n true (some f) s w =
    rw (claim_queue-failure_of (reserved_counters s) r n w) refl

reserved_counters-with_normal :
    (s : Shared) (c : Counters) → reserved_counters (with_normal s c) ≡ reserved_counters s
unfolding with_normal reserved_counters
reserved_counters-with_normal s c = refl

claim_slot-decide :
    (l r : Limits) (n : ℕ) (urgent : Bool) (s : Shared)
    → Within (normal_counters s) l
    → Within (reserved_counters s) r
    → (claim_slot l r n urgent s).1
      ≡ decide urgent (failure_of (normal_counters s) l n) (failure_of (reserved_counters s) r n)
unfolding claim_slot
claim_slot-decide l r n urgent s wl wr =
    let (after, first) = claim_queue (normal_counters s) l n in
    fall_back-decide r n urgent first (with_normal s after)
      (rw (reserved_counters-with_normal s after) wr)
    ∙ rw (reserved_counters-with_normal s after, claim_queue-failure_of (normal_counters s) l n wl)
        refl

-- A claim gets the slot of the queue that has room, and otherwise fails for the shortage.
pub claim_slot-queue_for :
    (l r : Limits) (n : ℕ) (urgent : Bool) (s : Shared)
    → Within (normal_counters s) l
    → Within (reserved_counters s) r
    → let claimed = (claim_slot l r n urgent s).1 in
      (queue_of claimed ≡ queue_for l r n urgent s)
      × (outcome_of (queue_of claimed) (is_short claimed)
          ≡ outcome_of (queue_for l r n urgent s) (bytes_short l r n urgent s))
claim_slot-queue_for l r n urgent s wl wr =
    rw (claim_slot-decide l r n urgent s wl wr)
      (unfold decide failure_of reserved_outcome combine in (ground arith, ground arith))

reading-fall_back :
    (o : Outcome) (r : Limits) (n : ℕ) (urgent : Bool) (f : Option ClaimFailure) (s : Shared)
    → reading o (fall_back r n urgent f s).0 ≡ reading o s
unfolding fall_back claim_reserved with_reserved
reading-fall_back o r n urgent none s = refl
reading-fall_back o r n false (some f) s = refl
reading-fall_back o r n true (some f) s = ground arith

pub reading-claim_slot :
    (o : Outcome) (l r : Limits) (n : ℕ) (urgent : Bool) (s : Shared)
    → reading o (claim_slot l r n urgent s).0 ≡ reading o s
unfolding claim_slot with_normal
reading-claim_slot o l r n urgent s = reading-fall_back o r n urgent _ _ ∙ ground arith

pub reading-emergency :
    (o : Outcome) (now : ℕ) (message : Text) (s : Shared)
    → reading o (emergency now message s) ≡ reading o s
unfolding emergency
reading-emergency o now message s = ground arith
