-- ===== src/Export/Collector/Accounting/Operations.antt =====
-- Each operation keeps the gauges equal to what is held.
use eden_logger.Export.Shared.{Shared, new_shared, default_metrics}
use eden_logger.Export.Claim.{Limits}
use eden_logger.Export.Collector.{
  QueueKind, normal_queue, reserved_queue, QueuedLog, ProducerLane, LogCollector, WorkerInput,
  Claimed, granted, refused, register_lane, has_lane, new_lane, enqueue, submit_to_lane, submit,
  clear, claim_slot, normal_counters, reserved_counters, release_slot, pop_front,
}
use eden_logger.Export.Collector.Drain.{
  retain, drain_into, refresh_empty, release_popped, try_receive, forget_lanes, drain_from,
}
use eden_logger.Export.Collector.Accounting.Lanes.{
  held, total, popped, popped-pop_parts, lanes_total-push_to, lanes_total-new_lane,
}
use eden_logger.Export.Collector.Accounting.Drained.{
  Clean, Clean-push_to, Clean-new_lane, drain_into-held,
}
use eden_logger.Export.Collector.Accounting.Slots.{
  counters, of_kind, Balanced, ClaimBalanced, Balanced-eq, claim_slot-Balanced,
  release_slot-Balanced,
}
use eden_logger.Base.{
  ℕ, ◌+◌, ◌≤◌, ◌≡◌, refl, inl, inr, Bool, true, ◌&&◌, Option, none, some, List, [], ◌∷◌, ◌++◌,
  arith, Bool-cases, is_nil, u64_max, wrap_add,
}

-- Limits that a `u64` holds.
abbrev pub IsU64 : Limits → Type 0
IsU64 l = (l.capacity ≤ u64_max) × (l.byte_capacity ≤ u64_max)

pub fresh_counters :
    (interval : ℕ) (q : QueueKind)
    → ((counters q (new_shared interval)).depth ≡ 0)
      × ((counters q (new_shared interval)).byte_depth ≡ 0)
unfolding new_shared default_metrics normal_counters reserved_counters
fresh_counters interval normal_queue = (refl, refl)
fresh_counters interval reserved_queue = (refl, refl)

counters-ticket :
    (q : QueueKind) (s : Shared) (n : ℕ) → counters q (record s { next_ticket = n }) ≡ counters q s
unfolding normal_counters reserved_counters
counters-ticket normal_queue s n = refl
counters-ticket reserved_queue s n = refl

pub zero-Balanced :
    (limits : QueueKind → Limits) (s : Shared)
    → ((q : QueueKind) → ((counters q s).depth ≡ 0) × ((counters q s).byte_depth ≡ 0))
    → ((q : QueueKind) → IsU64 (limits q))
    → Balanced limits (λ q. 0) (λ q. 0) s
zero-Balanced limits s z h = record {
  counted = λ q. (z q).0;
  sized = λ q. (z q).1;
  within = λ q. record {
    depth_le = omega (arith, (z q).0);
    byte_depth_le = omega (arith, (z q).1);
    capacity_le = (h q).0;
    byte_capacity_le = (h q).1;
  };
}

module _ {ℓ} {A : Type ℓ} where
  pub cleared :
      (c : LogCollector A) (q : QueueKind)
      → ((counters q (clear c).shared).depth ≡ 0) × ((counters q (clear c).shared).byte_depth ≡ 0)
  unfolding clear normal_counters reserved_counters
  cleared c normal_queue = (refl, refl)
  cleared c reserved_queue = (refl, refl)

  has_lane-append :
      (thread : ℕ) (ls : List (ProducerLane A))
      → has_lane thread (ls ++ new_lane thread ∷ []) ≡ true
  unfolding has_lane
  has_lane-append thread [] = ground arith
  has_lane-append thread (l ∷ ls) = ground (arith, has_lane-append thread ls)

  has_lane-register :
      (thread : ℕ) (c : LogCollector A) → has_lane thread (register_lane thread c).lanes ≡ true
  unfolding register_lane
  has_lane-register thread c = has_lane-append thread c.lanes

  drain_into-same :
      (c : LogCollector A) (input : WorkerInput A)
      → let d = (drain_into c input).0 in
        (normal_counters d.shared ≡ normal_counters c.shared)
        × (reserved_counters d.shared ≡ reserved_counters c.shared)
        × (d.normal_limits ≡ c.normal_limits)
        × (d.reserved_limits ≡ c.reserved_limits)
  unfolding drain_into drain_from forget_lanes normal_counters reserved_counters
  drain_into-same c input = elim (Bool-cases (is_nil (retain c.lanes))) [
    | inl e ↦ rw e (refl, refl, refl, refl)
    | inr e ↦ rw e (refl, refl, refl, refl)
  ]

  -- A record counts in its own queue, once or by its bytes.
  abbrev pub in_queue : QueueKind → QueuedLog A → ℕ
  in_queue q x = of_kind x.queue 1 q

  abbrev pub bytes_in : QueueKind → QueuedLog A → ℕ
  bytes_in q x = of_kind x.queue x.bytes q

  abbrev pub limits_of : LogCollector A → QueueKind → Limits
  limits_of c normal_queue = c.normal_limits
  limits_of c reserved_queue = c.reserved_limits

  -- Both gauges of both queues show what is held, within the limits.
  pub record IsCounted (s : LogCollector A × WorkerInput A) : Type 0 where
    pub clean : Clean s.0.lanes
    pub balanced :
        Balanced
          (limits_of s.0)
          (λ q. held (in_queue q) s.0 s.1)
          (λ q. held (bytes_in q) s.0 s.1)
          s.0.shared

  limits_same :
      (c d : LogCollector A)
      → (d.normal_limits ≡ c.normal_limits) × (d.reserved_limits ≡ c.reserved_limits)
      → (q : QueueKind) → limits_of d q ≡ limits_of c q
  limits_same c d (n, r) normal_queue = n
  limits_same c d (n, r) reserved_queue = r

  same_counters :
      (c d : LogCollector A)
      → (normal_counters d.shared ≡ normal_counters c.shared)
        × (reserved_counters d.shared ≡ reserved_counters c.shared)
        × (d.normal_limits ≡ c.normal_limits)
        × (d.reserved_limits ≡ c.reserved_limits)
      → (q : QueueKind)
      → (counters q d.shared ≡ counters q c.shared) × (limits_of d q ≡ limits_of c q)
  same_counters c d (n, r, ln, lr) normal_queue = (n, ln)
  same_counters c d (n, r, ln, lr) reserved_queue = (r, lr)

  -- The records move and the counters stay.
  pub moved-IsCounted :
      (c d : LogCollector A) (input filled : WorkerInput A)
      → (normal_counters d.shared ≡ normal_counters c.shared)
        × (reserved_counters d.shared ≡ reserved_counters c.shared)
        × (d.normal_limits ≡ c.normal_limits)
        × (d.reserved_limits ≡ c.reserved_limits)
      → Clean d.lanes
      → ((w : QueuedLog A → ℕ) → held w d filled ≡ held w c input)
      → IsCounted (c, input)
      → IsCounted (d, filled)
  moved-IsCounted c d input filled same clean kept v = record {
    clean = clean;
    balanced =
        Balanced-eq _ _ _ c.shared _ _ _ d.shared (same_counters c d same)
          (λ q. (kept (in_queue q), kept (bytes_in q))) v.balanced;
  }

  register-IsCounted :
      (c : LogCollector A) (input : WorkerInput A) (thread : ℕ)
      → IsCounted (c, input)
      → IsCounted (register_lane thread c, input)
  unfolding register_lane normal_counters reserved_counters
  register-IsCounted c input thread v =
      moved-IsCounted c (register_lane thread c) input input (refl, refl, refl, refl)
        (Clean-new_lane thread c.lanes v.clean)
        (λ w. omega (arith, lanes_total-new_lane w thread c.lanes)) v

  enqueue-IsCounted :
      (c : LogCollector A) (input : WorkerInput A) (thread : ℕ) (log : A) (size : ℕ)
      (p : Shared × Claimed)
      → has_lane thread c.lanes ≡ true
      → Clean c.lanes
      → ClaimBalanced
          (limits_of c)
          (λ q. held (in_queue q) c input)
          (λ q. held (bytes_in q) c input)
          size
          p
      → IsCounted ((enqueue thread log size c p).0, input)
  unfolding enqueue
  enqueue-IsCounted c input thread log size (s, refused failure) h clean b = record {
    clean = clean;
    balanced =
        Balanced-eq _ _ _ s _ _ _ s
          (λ q. (refl, limits_same c (record c { shared = s }) (refl, refl) q)) (λ q. (refl, refl))
          b;
  }
  enqueue-IsCounted c input thread log size (s, granted k) h clean b = record {
    clean = Clean-push_to thread _ c.lanes clean;
    balanced =
        Balanced-eq _ _ _ s _ _ _ _
          (λ q. (
            counters-ticket q s (wrap_add s.next_ticket 1),
            limits_same c (record c { shared = s }) (refl, refl) q,
          ))
          (λ q. (
            omega (arith, lanes_total-push_to (in_queue q) thread _ c.lanes h),
            omega (arith, lanes_total-push_to (bytes_in q) thread _ c.lanes h),
          ))
          b;
  }

  pub submit-IsCounted :
      (c : LogCollector A) (input : WorkerInput A) (thread : ℕ) (log : A) (size : ℕ)
      (priority : Bool)
      → IsCounted (c, input)
      → IsCounted ((submit thread log size priority c).0, input)
  unfolding submit submit_to_lane
  submit-IsCounted c input thread log size priority v =
      elim (Bool-cases (has_lane thread c.lanes)) [
        | inl e ↦ rw e (claimed c e v)
        | inr e ↦ rw e (
            claimed (register_lane thread c) (has_lane-register thread c)
              (register-IsCounted c input thread v))
      ]
    where
      claimed :
          (d : LogCollector A)
          → has_lane thread d.lanes ≡ true
          → IsCounted (d, input)
          → IsCounted (
            (enqueue thread log size d
                (claim_slot d.normal_limits d.reserved_limits size priority d.shared)).0,
            input,
          )
      claimed d h u =
          enqueue-IsCounted d input thread log size
            (claim_slot d.normal_limits d.reserved_limits size priority d.shared) h u.clean
            (claim_slot-Balanced (limits_of d) _ _ size priority d.shared u.balanced)

  pub drain-IsCounted :
      (c : LogCollector A) (input : WorkerInput A)
      → IsCounted (c, input)
      → IsCounted (drain_into c input)
  drain-IsCounted c input v =
      moved-IsCounted c (drain_into c input).0 input (drain_into c input).1
        (drain_into-same c input) (drain_into-held (λ x. 0) c input v.clean).0
        (λ w. (drain_into-held w c input v.clean).2) v

  release-IsCounted :
      (c : LogCollector A) (input : WorkerInput A) (o : Option (QueuedLog A × WorkerInput A))
      → ((w : QueuedLog A → ℕ) → popped w o ≡ total w input.reserved + total w input.normal)
      → IsCounted (c, input)
      → IsCounted ((release_popped c input o).1, (release_popped c input o).2)
  unfolding release_popped
  release-IsCounted c input none h v = v
  release-IsCounted c input (some (x, rest)) h v = record {
    clean = v.clean;
    balanced =
        Balanced-eq (limits_of c) _ _ _ _ _ _ _
          (λ q. (
            refl,
            limits_same c (record c { shared = release_slot x.queue x.bytes c.shared }) (refl, refl)
                q,
          ))
          (λ q. (refl, refl))
          (release_slot-Balanced (limits_of c) (λ q. held (in_queue q) c rest)
            (λ q. held (bytes_in q) c rest) x.queue x.bytes c.shared
            (Balanced-eq _ _ _ c.shared (limits_of c) _ _ c.shared (λ q. (refl, refl))
              (λ q. (omega (arith, h (in_queue q)), omega (arith, h (bytes_in q)))) v.balanced));
  }

  pub receive-IsCounted :
      (c : LogCollector A) (input : WorkerInput A)
      → IsCounted (c, input)
      → IsCounted ((try_receive c input).1, (try_receive c input).2)
  unfolding try_receive refresh_empty pop_front
  receive-IsCounted c input v = elim (Bool-cases (is_nil input.reserved && is_nil input.normal)) [
    | inl e ↦
        rw e (received (drain_into c input).0 (drain_into c input).1 (drain-IsCounted c input v))
    | inr e ↦ rw e (received c input v)
  ]
    where
      received :
          (d : LogCollector A) (now : WorkerInput A)
          → IsCounted (d, now)
          → IsCounted
              ((release_popped d now (pop_front now)).1, (release_popped d now (pop_front now)).2)
      received d now u =
          release-IsCounted d now (pop_front now) (λ w. popped-pop_parts w now.reserved now.normal)
            u
