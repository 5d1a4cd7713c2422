-- ===== src/Export/Claim/Tests.antt =====
-- Admission at concrete counters.
use eden_logger.Export.Claim.{Counters, Limits, claim_queue, release_counters}
use eden_logger.Export.Claim.Bounds.{Within, claim_queue_lem, release_counters-grown}
use eden_logger.Export.Claim.Threads.{
  idle, System, fetch_add, accept, Reach, here, next, start, sum, claims_bounded, depth_at_rest,
}
use eden_logger.Base.{◌≤◌, ◌≡◌, refl, none, [], ◌∷◌, arith}

-- Two of three slots and 60 of 100 bytes are taken.
abbrev two_of_three : Counters
two_of_three = record { depth = 2; byte_depth = 60 }

abbrev small_limits : Limits
small_limits = record { capacity = 3; byte_capacity = 100 }

two_of_three-Within : Within two_of_three small_limits
two_of_three-Within = record {
  depth_le = omega arith;
  byte_depth_le = omega arith;
  capacity_le = omega arith;
  byte_capacity_le = omega arith;
}

claim_queue_lem_example :
    claim_queue two_of_three small_limits 30 ≡ (record { depth = 3; byte_depth = 90 }, none)
claim_queue_lem_example = claim_queue_lem two_of_three small_limits 30 two_of_three-Within

release_counters-grown_example :
    release_counters (record { depth = 2; byte_depth = 60 }) 20
    ≡ record { depth = 1; byte_depth = 40 }
release_counters-grown_example =
    release_counters-grown (record { depth = 1; byte_depth = 40 }) small_limits 20
      two_of_three-Within

abbrev one_claim : System
one_claim = record { depth = 3; threads = idle ∷ idle ∷ []; claims = 3 ∷ [] }

one_claim-Reach : Reach 5 (start 2) one_claim
one_claim-Reach =
    next (next here (fetch_add [] (idle ∷ []) 3 refl (omega arith)))
      (accept [] (idle ∷ []) 0 3 refl (omega arith))

claims_bounded_example : sum (3 ∷ []) ≤ 5
claims_bounded_example = claims_bounded 2 (omega arith) one_claim-Reach

depth_at_rest_example : 3 ≡ sum (3 ∷ [])
depth_at_rest_example = depth_at_rest 2 (omega arith) one_claim-Reach (refl, (refl, tt))
