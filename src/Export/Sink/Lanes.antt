-- ===== src/Export/Sink/Lanes.antt =====
-- What the lanes of the collector of crates/eden_logger_export/src/collector.rs hold for a thread and a
-- queue, and what registration and a push do to it.
use eden_logger.Export.Collector.{
  QueueKind, normal_queue, reserved_queue, QueuedLog, LaneQueues, ProducerLane, new_lane, push,
  push_queue, push_to, has_lane,
}
use eden_logger.Base.{
  ℕ, ◌≡◌, refl, inl, inr, Bool, true, false, ◌&&◌, Option, none, some, List, [], ◌∷◌, ◌++◌,
  append-nil, arith, ◌==◌, if◌then◌else◌, Bool-cases,
}

-- a lane's records of a queue
abbrev waiting {ℓ} : {A : Type ℓ} → QueueKind → LaneQueues A → List (QueuedLog A)
waiting normal_queue q = q.normal
waiting reserved_queue q = q.reserved

-- the records that a thread's lane holds for a queue, in order
unfoldable pub lane_records {ℓ} :
    {A : Type ℓ} → ℕ → QueueKind → List (ProducerLane A) → List (QueuedLog A)
lane_records thread kind [] = []
lane_records thread kind (lane ∷ lanes) =
    let rest = lane_records thread kind lanes in
    if lane.producer == thread then waiting kind lane.queues else rest

abbrev pub same_kind : QueueKind → Option QueueKind → Bool
same_kind normal_queue (some normal_queue) = true
same_kind reserved_queue (some reserved_queue) = true
same_kind normal_queue (some reserved_queue) = false
same_kind reserved_queue (some normal_queue) = false
same_kind kind none = false

abbrev pub if_so {ℓ} : {A : Type ℓ} → Bool → A → List A
if_so true a = a ∷ []
if_so false a = []

module _ {ℓ} {A : Type ℓ} where
  abbrev pub entry : A → ℕ → ℕ → QueueKind → QueuedLog A
  entry log n ticket kind = record { log = log; queue = kind; bytes = n; ticket = ticket }

  waiting-push :
      (kind k : QueueKind) (log : A) (n ticket : ℕ) (q : LaneQueues A)
      → waiting kind (push_queue k (entry log n ticket k) q)
        ≡ waiting kind q ++ if_so (same_kind kind (some k)) (entry log n ticket kind)
  unfolding push_queue
  waiting-push normal_queue normal_queue log n ticket q = refl
  waiting-push reserved_queue reserved_queue log n ticket q = refl
  waiting-push normal_queue reserved_queue log n ticket q = rw append-nil refl
  waiting-push reserved_queue normal_queue log n ticket q = rw append-nil refl

  pub lane_records-push_to :
      (t thread : ℕ) (kind k : QueueKind) (log : A) (n ticket : ℕ) (lanes : List (ProducerLane A))
      → has_lane thread lanes ≡ true
      → lane_records t kind (push_to thread (entry log n ticket k) lanes)
        ≡ lane_records t kind lanes
          ++ if_so (thread == t && same_kind kind (some k)) (entry log n ticket kind)
  unfolding lane_records push_to has_lane push
  lane_records-push_to t thread kind k log n ticket [] h = absurd (ground arith)
  lane_records-push_to t thread kind k log n ticket (lane ∷ lanes) h =
      elim (Bool-cases (lane.producer == thread)) [
        | inl mine ↦ elim (Bool-cases (thread == t)) [
          | inl same ↦
              let here : (lane.producer == t) ≡ true = ground arith in
              rw (mine, same, here, waiting-push kind k log n ticket lane.queues) refl
          | inr other ↦
              let there : (lane.producer == t) ≡ false = ground arith in
              rw (mine, other, there, append-nil) refl
        ]
        | inr not_mine ↦
            let later : has_lane thread lanes ≡ true = ground arith in
            let rest = lane_records-push_to t thread kind k log n ticket lanes later in
            elim (Bool-cases (lane.producer == t)) [
              | inl here ↦
                  let other : (thread == t) ≡ false = ground arith in
                  rw (not_mine, here, other, append-nil) refl
              | inr there ↦ rw (not_mine, there, rest) refl
            ]
      ]

  pub lane_records-register :
      (t thread : ℕ) (kind : QueueKind) (lanes : List (ProducerLane A))
      → (lane_records t kind (lanes ++ new_lane thread ∷ []) ≡ lane_records t kind lanes)
        × (has_lane thread (lanes ++ new_lane thread ∷ []) ≡ true)
  unfolding lane_records has_lane
  lane_records-register t thread normal_queue [] = (ground arith, ground arith)
  lane_records-register t thread reserved_queue [] = (ground arith, ground arith)
  lane_records-register t thread kind (lane ∷ lanes) =
      let (kept, there) = lane_records-register t thread kind lanes in
      (rw kept refl, ground (arith, there))
