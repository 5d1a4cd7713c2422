-- ===== src/Export/Collector/Accounting/Slots.antt =====
-- The two queues' gauges as one family, and what a submission claims from them.
use eden_logger.Export.Shared.{Shared}
use eden_logger.Export.Claim.{
  ClaimFailure, records, bytes, Counters, Limits, claim_queue, release_counters, subtract,
}
use eden_logger.Export.Claim.Bounds.{Within, grown, claim_queue_lem}
use eden_logger.Export.Collector.{
  QueueKind, normal_queue, reserved_queue, Claimed, granted, refused, normal_counters,
  reserved_counters, with_normal, with_reserved, reserved_outcome, claim_reserved, fall_back,
  claim_slot, release_slot,
}
use eden_logger.Base.{
  ℕ, ◌+◌, ◌≡◌, refl, sym, ap, ◌∙◌, subst, ◌⊎◌, inl, inr, Bool, true, false, none, some, arith, leb,
  if◌then◌else◌, leb→le, Bool-cases, wrap_sub,
}

abbrev pub counters : QueueKind → Shared → Counters
counters normal_queue s = normal_counters s
counters reserved_queue s = reserved_counters s

abbrev pub same_kind : QueueKind → QueueKind → Bool
same_kind normal_queue normal_queue = true
same_kind reserved_queue reserved_queue = true
same_kind normal_queue reserved_queue = false
same_kind reserved_queue normal_queue = false

-- A quantity of one queue.
abbrev pub of_kind : QueueKind → ℕ → QueueKind → ℕ
of_kind k n q = if same_kind k q then n else 0

-- The gauges show `count` records of `size` bytes, by queue, within the limits.
pub record Balanced (limits : QueueKind → Limits) (count size : QueueKind → ℕ) (s : Shared)
    : Type 0 where
  pub counted : (q : QueueKind) → (counters q s).depth ≡ count q
  pub sized : (q : QueueKind) → (counters q s).byte_depth ≡ size q
  pub within : (q : QueueKind) → Within (counters q s) (limits q)

-- The same after a claim.
abbrev pub ClaimBalanced :
    (QueueKind → Limits) → (QueueKind → ℕ) → (QueueKind → ℕ) → ℕ → Shared × Claimed → Type 0
ClaimBalanced limits count size n (s, refused failure) = Balanced limits count size s
ClaimBalanced limits count size n (s, granted k) =
    Balanced limits (λ q. count q + of_kind k 1 q) (λ q. size q + of_kind k n q) s

-- What the gauges show changes only with the counters.
pub Balanced-eq :
    (limits : QueueKind → Limits) (count size : QueueKind → ℕ) (s : Shared)
    (limits_now : QueueKind → Limits) (count_now size_now : QueueKind → ℕ) (t : Shared)
    → ((q : QueueKind) → (counters q t ≡ counters q s) × (limits_now q ≡ limits q))
    → ((q : QueueKind) → (count_now q ≡ count q) × (size_now q ≡ size q))
    → Balanced limits count size s
    → Balanced limits_now count_now size_now t
Balanced-eq limits count size s limits_now count_now size_now t e h b = record {
  counted = λ q. ap (λ c. c.depth) (e q).0 ∙ b.counted q ∙ sym (h q).0;
  sized = λ q. ap (λ c. c.byte_depth) (e q).0 ∙ b.sized q ∙ sym (h q).1;
  within = λ q. rw ((e q).0, (e q).1) (b.within q);
}

claim_queue-cases :
    (c : Counters) (l : Limits) (n : ℕ)
    → Within c l
    → ((claim_queue c l n ≡ (grown c n, none)) × Within (grown c n) l)
      ⊎ ((f : ClaimFailure) × (claim_queue c l n ≡ (c, some f)))
claim_queue-cases c l n w = elim (Bool-cases (leb (c.byte_depth + n) l.byte_capacity)) [
  | inl small ↦ elim (Bool-cases (leb (c.depth + 1) l.capacity)) [
    | inl room ↦ inl (claim_queue_lem c l n w ∙ rw (small, room) refl, grown-Within small room)
    | inr full ↦ inr (records, claim_queue_lem c l n w ∙ rw (small, full) refl)
  ]
  | inr large ↦ inr (bytes, claim_queue_lem c l n w ∙ rw large refl)
]
  where
    grown-Within :
        leb (c.byte_depth + n) l.byte_capacity ≡ true
        → leb (c.depth + 1) l.capacity ≡ true
        → Within (grown c n) l
    grown-Within small room = record {
      depth_le = leb→le _ _ room;
      byte_depth_le = leb→le _ _ small;
      capacity_le = w.capacity_le;
      byte_capacity_le = w.byte_capacity_le;
    }

abbrev set_counters : QueueKind → Shared → Counters → Shared
set_counters normal_queue s c = with_normal s c
set_counters reserved_queue s c = with_reserved s c

counters-set_counters :
    (k q : QueueKind) (s : Shared) (c : Counters)
    → counters q (set_counters k s c) ≡ (if same_kind k q then c else counters q s)
unfolding with_normal with_reserved normal_counters reserved_counters
counters-set_counters normal_queue normal_queue s c = refl
counters-set_counters normal_queue reserved_queue s c = refl
counters-set_counters reserved_queue normal_queue s c = refl
counters-set_counters reserved_queue reserved_queue s c = refl

set_counters-same : (k : QueueKind) (s : Shared) → set_counters k s (counters k s) ≡ s
unfolding with_normal with_reserved normal_counters reserved_counters
set_counters-same normal_queue s = refl
set_counters-same reserved_queue s = refl

-- What the counters of one queue show.
abbrev Shows :
    (QueueKind → Limits) → (QueueKind → ℕ) → (QueueKind → ℕ) → QueueKind → Counters → Type 0
Shows limits count size q c = (c.depth ≡ count q) × (c.byte_depth ≡ size q) × Within c (limits q)

module _ (limits : QueueKind → Limits) (count size : QueueKind → ℕ) where
  -- One queue's counters change, and what they show changes with them.
  change-Shows :
      (k q : QueueKind) (s : Shared) (c : Counters) (count_now size_now : QueueKind → ℕ)
      → Balanced limits count size s
      → Shows limits count_now size_now k c
      → (same_kind k q ≡ false → (count_now q ≡ count q) × (size_now q ≡ size q))
      → Shows limits count_now size_now q (counters q (set_counters k s c))
  unfolding with_normal with_reserved normal_counters reserved_counters
  change-Shows normal_queue normal_queue s c count_now size_now b h same = h
  change-Shows reserved_queue reserved_queue s c count_now size_now b h same = h
  change-Shows normal_queue reserved_queue s c count_now size_now b h same =
      let (e, f) = same refl in
      (b.counted reserved_queue ∙ sym e, b.sized reserved_queue ∙ sym f, b.within reserved_queue)
  change-Shows reserved_queue normal_queue s c count_now size_now b h same =
      let (e, f) = same refl in
      (b.counted normal_queue ∙ sym e, b.sized normal_queue ∙ sym f, b.within normal_queue)

  change-Balanced :
      (k : QueueKind) (s : Shared) (c : Counters) (count_now size_now : QueueKind → ℕ)
      → Balanced limits count size s
      → Shows limits count_now size_now k c
      → ((q : QueueKind) → same_kind k q ≡ false → (count_now q ≡ count q) × (size_now q ≡ size q))
      → Balanced limits count_now size_now (set_counters k s c)
  change-Balanced k s c count_now size_now b h same = record {
    counted = λ q. (change-Shows k q s c count_now size_now b h (same q)).0;
    sized = λ q. (change-Shows k q s c count_now size_now b h (same q)).1;
    within = λ q. (change-Shows k q s c count_now size_now b h (same q)).2;
  }

  of_kind-other : (k q : QueueKind) (n : ℕ) → same_kind k q ≡ false → of_kind k n q ≡ 0
  of_kind-other k q n e = rw e

  of_kind-same : (k : QueueKind) (n : ℕ) → of_kind k n k ≡ n
  of_kind-same normal_queue n = refl
  of_kind-same reserved_queue n = refl

  grow-Balanced :
      (k : QueueKind) (n : ℕ) (s : Shared)
      → Balanced limits count size s
      → Within (grown (counters k s) n) (limits k)
      → Balanced limits
          (λ q. count q + of_kind k 1 q)
          (λ q. size q + of_kind k n q)
          (set_counters k s (grown (counters k s) n))
  grow-Balanced k n s b w =
      change-Balanced k s (grown (counters k s) n) _ _ b
        (
          omega (arith, b.counted k, of_kind-same k 1),
          omega (arith, b.sized k, of_kind-same k n),
          w,
        )
        (λ q e. (omega (arith, of_kind-other k q 1 e), omega (arith, of_kind-other k q n e)))

  claim_reserved-Balanced :
      (n : ℕ) (failure : ClaimFailure) (s : Shared)
      → Balanced limits count size s
      → ClaimBalanced limits count size n (claim_reserved (limits reserved_queue) n failure s)
  unfolding claim_reserved reserved_outcome
  claim_reserved-Balanced n failure s b =
      elim (claim_queue-cases (counters reserved_queue s) (limits reserved_queue) n
        (b.within reserved_queue)) [
          | inl (e, w) ↦ rw e (grow-Balanced reserved_queue n s b w)
          | inr (f, e) ↦
              rw e (subst (Balanced limits count size) (sym (set_counters-same reserved_queue s)) b)
        ]

  fall_back-Balanced :
      (n : ℕ) (priority : Bool) (failure : ClaimFailure) (s : Shared)
      → Balanced limits count size s
      → ClaimBalanced limits count size n
          (fall_back (limits reserved_queue) n priority (some failure) s)
  unfolding fall_back
  fall_back-Balanced n false failure s b = b
  fall_back-Balanced n true failure s b = claim_reserved-Balanced n failure s b

  -- A submission claims one slot of the queue it is granted, and nothing when it is refused.
  pub claim_slot-Balanced :
      (n : ℕ) (priority : Bool) (s : Shared)
      → Balanced limits count size s
      → ClaimBalanced limits count size n
          (claim_slot (limits normal_queue) (limits reserved_queue) n priority s)
  unfolding claim_slot fall_back
  claim_slot-Balanced n priority s b =
      elim (claim_queue-cases (counters normal_queue s) (limits normal_queue) n
        (b.within normal_queue)) [
          | inl (e, w) ↦ rw e (grow-Balanced normal_queue n s b w)
          | inr (f, e) ↦
              rw (e, set_counters-same normal_queue s) (fall_back-Balanced n priority f s b)
        ]

release_slot-set_counters :
    (k : QueueKind) (n : ℕ) (s : Shared)
    → release_slot k n s ≡ set_counters k s (release_counters (counters k s) n)
unfolding release_slot
release_slot-set_counters normal_queue n s = refl
release_slot-set_counters reserved_queue n s = refl

module _ (limits : QueueKind → Limits) (count size : QueueKind → ℕ) where
  release-Shows :
      (k : QueueKind) (n : ℕ) (c : Counters)
      → Shows limits (λ q. count q + of_kind k 1 q) (λ q. size q + of_kind k n q) k c
      → Shows limits count size k (release_counters c n)
  unfolding release_counters subtract
  release-Shows k n c (d, z, w) =
      let depth_now : wrap_sub c.depth 1 ≡ count k =
        omega (arith, d, of_kind-same limits count size k 1, w.depth_le, w.capacity_le) in
      let size_now : wrap_sub c.byte_depth n ≡ size k =
        omega (arith, z, of_kind-same limits count size k n, w.byte_depth_le, w.byte_capacity_le) in
      (
        depth_now,
        size_now,
        record {
          depth_le = omega (arith, depth_now, d, w.depth_le);
          byte_depth_le = omega (arith, size_now, z, w.byte_depth_le);
          capacity_le = w.capacity_le;
          byte_capacity_le = w.byte_capacity_le;
        },
      )

  -- The release of a slot that is counted.
  pub release_slot-Balanced :
      (k : QueueKind) (n : ℕ) (s : Shared)
      → Balanced limits (λ q. count q + of_kind k 1 q) (λ q. size q + of_kind k n q) s
      → Balanced limits count size (release_slot k n s)
  release_slot-Balanced k n s b = rw (release_slot-set_counters k n s) (
      change-Balanced limits (λ q. count q + of_kind k 1 q) (λ q. size q + of_kind k n q) k s _
        count size b (release-Shows k n (counters k s) (b.counted k, b.sized k, b.within k))
        (λ q e. (
          omega (arith, of_kind-other limits count size k q 1 e),
          omega (arith, of_kind-other limits count size k q n e),
        )))
