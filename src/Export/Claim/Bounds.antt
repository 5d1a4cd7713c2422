-- ===== src/Export/Claim/Bounds.antt =====
-- Admission by one thread: exactness, bounds and release.
use eden_logger.Export.Claim.{
  records, bytes, Counters, Limits, claim_amount, claim_depth, claim_queue, subtract,
  release_counters,
}
use eden_logger.Base.{
  ℕ, ◌+◌, ◌≤◌, ◌≡◌, Bool, true, false, none, some, arith, leb, if◌then◌else◌, u64_max,
}

-- Counters within the limits of their queue, and limits that are `u64`.
pub record Within (c : Counters) (l : Limits) : Type 0 where
  pub depth_le : c.depth ≤ l.capacity
  pub byte_depth_le : c.byte_depth ≤ l.byte_capacity
  pub capacity_le : l.capacity ≤ u64_max
  pub byte_capacity_le : l.byte_capacity ≤ u64_max

-- A claim succeeds exactly if the amount fits, and changes the counter only then.
pub claim_amount_exact :
    (depth capacity amount : ℕ)
    → depth ≤ capacity
    → capacity ≤ u64_max
    → claim_amount depth capacity amount
      ≡ (if leb (depth + amount) capacity then (depth + amount, true) else (depth, false))
unfolding claim_amount
claim_amount_exact depth capacity amount fits small = ground arith

abbrev fits_bytes : Counters → Limits → ℕ → Bool
fits_bytes c l size = leb (c.byte_depth + size) l.byte_capacity

abbrev fits_records : Counters → Limits → Bool
fits_records c l = leb (c.depth + 1) l.capacity

abbrev pub grown : Counters → ℕ → Counters
grown c size = record { depth = c.depth + 1; byte_depth = c.byte_depth + size }

-- From counters within their limits, a record is admitted exactly if its bytes and one more record
-- fit, and then both counters grow by it. Otherwise nothing changes, and the failure names the
-- bytes if they do not fit and the records if only those do not.
pub claim_queue_lem :
    (c : Counters) (l : Limits) (size : ℕ)
    → Within c l
    → claim_queue c l size ≡ (
        if fits_bytes c l size
        then (if fits_records c l then (grown c size, none) else (c, some records))
        else (c, some bytes))
unfolding claim_queue claim_depth subtract
claim_queue_lem c l size w = ground (
  arith,
  claim_amount_exact c.byte_depth l.byte_capacity size w.byte_depth_le w.byte_capacity_le,
  claim_amount_exact c.depth l.capacity 1 w.depth_le w.capacity_le,
)

-- Admission keeps the counters within their limits, whatever its result.
pub claim_queue-Within :
    (c : Counters) (l : Limits) (size : ℕ) → Within c l → Within (claim_queue c l size).0 l
claim_queue-Within c l size w = ground (arith, claim_queue_lem c l size w)

-- The release of an admitted record restores both counters.
pub release_counters-grown :
    (c : Counters) (l : Limits) (size : ℕ)
    → Within (grown c size) l
    → release_counters (grown c size) size ≡ c
unfolding release_counters subtract
release_counters-grown c l size w = ground arith
