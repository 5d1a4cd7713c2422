-- ===== src/Export/Claim.antt =====
-- Admission to one bounded queue: `claim_amount`, `claim_queue`, `subtract`, `decrement` and
-- `ClaimFailure` of crates/eden_logger_export/src/collector.rs. The counters are `AtomicU64`.
pub mod Bounds
pub mod Threads
mod Tests
use eden_logger.Base.{
  ℕ, zero, suc, ◌+◌, ◌-◌, ◌*◌, ◌/◌, ◌%◌, ◌^◌, ◌≤◌, ◌<◌, min, max, bit_and, bit_or, ◌≡◌, refl, sym,
  ap, ◌∙◌, subst, ◌≢◌, ◌↔◌, ◌⊎◌, inl, inr, Bool, true, false, ◌&&◌, ◌||◌, not, Option, none, some,
  List, [], ◌∷◌, ◌++◌, map, append-nil, append_assoc, arith, ltb, leb, ◌==◌, if◌then◌else◌, ltb→lt,
  lt→ltb, leb→le, ==_iff, Bool-cases, Option-cases, ◌>>=◌, or_else, is_some, is_nil, length, take,
  drop, length-append, take-append-drop, length-take, length-drop, any, all, All, All-append,
  u64_mod, u64_max, u128_max, sat_add, sat_mul, wrap_add, wrap_sub, Text, codes, text_eq,
  text_eq_iff,
}

pub data ClaimFailure : Type 0 where
  records bytes : ClaimFailure

pub data SubmitResult : Type 0 where
  accepted record_capacity byte_capacity : SubmitResult

unfoldable pub combine : ClaimFailure → ClaimFailure → ClaimFailure
combine bytes other = bytes
combine records bytes = bytes
combine records records = records

unfoldable pub submit_result : ClaimFailure → SubmitResult
submit_result records = record_capacity
submit_result bytes = byte_capacity

-- `checked_add` with the filter of `fetch_update`
unfoldable pub checked_claim : ℕ → ℕ → ℕ → ℕ × Bool
checked_claim depth capacity amount =
    if leb (depth + amount) u64_max && leb (depth + amount) capacity
    then (depth + amount, true)
    else (depth, false)

-- `fetch_add`, and `fetch_sub` if the amount does not fit
unfoldable pub optimistic_claim : ℕ → ℕ → ℕ → ℕ × Bool
optimistic_claim depth capacity amount =
    let raised = wrap_add depth amount in
    if leb depth (capacity - amount) then (raised, true) else (wrap_sub raised amount, false)

-- `claim_amount` with no other thread between its accesses: the counter after it, and its result.
unfoldable pub claim_amount : ℕ → ℕ → ℕ → ℕ × Bool
unfolding checked_claim optimistic_claim
claim_amount depth capacity amount =
    if ltb capacity amount
    then (depth, false)
    else if ltb (u64_max / 2) capacity
    then checked_claim depth capacity amount
    else optimistic_claim depth capacity amount

-- `subtract` and `decrement`
unfoldable pub subtract : ℕ → ℕ → ℕ
subtract depth amount = wrap_sub depth amount

-- The two counters of a queue and its two limits.
pub record Counters : Type 0 where
  pub depth : ℕ
  pub byte_depth : ℕ

pub record Limits : Type 0 where
  pub capacity : ℕ
  pub byte_capacity : ℕ

unfoldable pub claim_depth : Counters → Limits → ℕ → ℕ → Counters × Option ClaimFailure
unfolding claim_amount subtract
claim_depth c l bytes_now size =
    let (depth_now, admitted) = claim_amount c.depth l.capacity 1 in
    if admitted
    then (record { depth = depth_now; byte_depth = bytes_now }, none)
    else (record { depth = depth_now; byte_depth = subtract bytes_now size }, some records)

-- `claim_queue`: the bytes first, then one record; the bytes are given back if the record does not
-- fit. `none` is `Ok(())`.
unfoldable pub claim_queue : Counters → Limits → ℕ → Counters × Option ClaimFailure
unfolding claim_amount claim_depth
claim_queue c l size =
    let (bytes_now, admitted) = claim_amount c.byte_depth l.byte_capacity size in
    if admitted
    then claim_depth c l bytes_now size
    else (record { depth = c.depth; byte_depth = bytes_now }, some bytes)

-- `LogCollector::release` on the counters of one queue
unfoldable pub release_counters : Counters → ℕ → Counters
unfolding subtract
release_counters c size = record {
  depth = subtract c.depth 1;
  byte_depth = subtract c.byte_depth size;
}
