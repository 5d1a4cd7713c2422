-- ===== src/Export/Worker/Batch/Termination.antt =====
-- The exporter isolates bad records by bisection: how many answers that are not retryable a batch
-- can take.
use eden_logger.Export.Worker.Split.{split_records}
use eden_logger.Export.Worker.Batch.{
  ExportError, Response, succeeded, failed, Event, MappedLog, RetryConfig, Worker, Progress,
  working, complete_result, terminal_result, count_attempt, pop_batch, export_batch, isolate,
  on_error, on_response, attempt, attempts,
}
use eden_logger.Base.{
  ℕ, suc, ◌+◌, ◌-◌, ◌*◌, ◌/◌, ◌≤◌, ◌≡◌, refl, subst, inl, inr, Bool, true, false, ◌&&◌, not, List,
  [], ◌∷◌, arith, ◌==◌, if◌then◌else◌, Bool-cases, length, length-take, length-drop, All,
}

-- The answers after which the worker sends the same request again.
abbrev pub is_retry : Response → Bool
is_retry (succeeded accepted rejected message) = false
is_retry (failed error) = not error.invalid_payload && error.retryable

abbrev pub decisive : List Event → ℕ
decisive [] = 0
decisive (e ∷ es) = if is_retry e.response then decisive es else suc (decisive es)

abbrev pub is_working {ℓ} : {A : Type ℓ} → Progress A → Bool
is_working (working records failures pending) = true
is_working complete_result = false
is_working (terminal_result retained) = false

module _ {ℓ} {A : Type ℓ} where
  -- The decisive answers that a stack of batches can still take: 2 n - 1 for n records.
  budget : List (List (MappedLog A)) → ℕ
  budget [] = 0
  budget (b ∷ bs) = (2 * length b - 1) + budget bs

  abbrev NonEmpty : List (List (MappedLog A)) → Type 0
  NonEmpty = All (λ b. 1 ≤ length b)

  -- A batch in work has at least one record, and so has each that waits.
  abbrev Left : ℕ → Progress A → Type 0
  Left n (working records failures pending) =
      NonEmpty (records ∷ pending) × (budget (records ∷ pending) ≤ n)
  Left n complete_result = Unit {0}
  Left n (terminal_result retained) = Unit {0}

  pop-Left :
      (n : ℕ) (pending : List (List (MappedLog A)))
      → NonEmpty pending
      → budget pending ≤ n
      → Left n (pop_batch pending)
  unfolding pop_batch
  pop-Left n [] h le = tt
  pop-Left n (b ∷ bs) h le = (h, le)

  -- Bisection costs one answer.
  split-NonEmpty :
      (records : List (MappedLog A)) (pending : List (List (MappedLog A)))
      → 2 ≤ length records
      → NonEmpty pending
      → NonEmpty (split_records records pending)
        × (budget (split_records records pending) + 1 ≤ budget (records ∷ pending))
  unfolding split_records budget
  split-NonEmpty records pending two h =
      let n = length records / 2 in
      (
        (omega (arith, length-take n records), (omega (arith, length-drop n records), h)),
        omega (arith, length-take n records, length-drop n records),
      )

  isolate-Left :
      (n now : ℕ) (error : ExportError) (records : List (MappedLog A)) (failures : ℕ)
      (pending : List (List (MappedLog A))) (w : Worker)
      → Left (suc n) (working records failures pending)
      → Left n (isolate now error records pending w).1
  unfolding isolate budget
  isolate-Left n now error [] failures pending w h = absurd (omega arith)
  isolate-Left n now error (r ∷ []) failures pending w h = pop-Left n pending h.0.1 (omega arith)
  isolate-Left n now error (r ∷ s ∷ rs) failures pending w h =
      let cut = split-NonEmpty (r ∷ s ∷ rs) pending (omega arith) h.0.1 in
      pop-Left n (split_records (r ∷ s ∷ rs) pending) cut.0 (omega (arith, cut.1))

  on_error-Left :
      (n : ℕ) (config : RetryConfig) (event : Event) (error : ExportError)
      (records : List (MappedLog A)) (failures : ℕ) (pending : List (List (MappedLog A)))
      (w : Worker)
      → Left (if is_retry (failed error) then n else suc n) (working records failures pending)
      → Left n (on_error config event error records failures pending w).1
  unfolding on_error
  on_error-Left n config event error records failures pending w h =
      elim (Bool-cases error.invalid_payload) [
        | inl invalid ↦
            simp invalid
              (isolate-Left n event.now error records failures pending w (simp invalid at h))
        | inr valid ↦ elim (Bool-cases error.retryable) [
          | inl again ↦ simp (valid, again) (simp (valid, again) at h)
          | inr fatal ↦ simp (valid, fatal) tt
        ]
      ]

  on_response-Left :
      (n : ℕ) (config : RetryConfig) (event : Event) (response : Response)
      (records : List (MappedLog A)) (failures : ℕ) (pending : List (List (MappedLog A)))
      (w : Worker)
      → Left (if is_retry response then n else suc n) (working records failures pending)
      → Left n (on_response config event response records failures pending w).1
  unfolding on_response budget
  on_response-Left n config event (failed error) records failures pending w h =
      on_error-Left n config event error records failures pending w h
  on_response-Left n config event (succeeded accepted rejected message) records failures pending w
        h =
      elim (Bool-cases (rejected == 0)) [
        | inl full ↦ rw full (pop-Left n pending h.0.1 (omega arith))
        | inr partial ↦ rw partial (pop-Left n pending h.0.1 (omega arith))
      ]

  attempts-Left :
      (n : ℕ) (config : RetryConfig) (events : List Event) (s : Worker × Progress A)
      → Left (n + decisive events) s.1
      → Left n (attempts config events s).1
  unfolding attempts attempt
  attempts-Left n config [] s h = subst (λ k. Left k s.1) (omega arith) h
  attempts-Left n config (e ∷ es) (w, complete_result) h =
      attempts-Left n config es (w, complete_result) tt
  attempts-Left n config (e ∷ es) (w, terminal_result retained) h =
      attempts-Left n config es (w, terminal_result retained) tt
  attempts-Left n config (e ∷ es) (w, working records failures pending) h =
      attempts-Left n config es _ (
        on_response-Left (n + decisive es) config e e.response records failures pending
          (count_attempt w) (h.0, ground (arith, h.1)))

  not_working : (p : Progress A) → Left 0 p → is_working p ≡ false
  unfolding budget
  not_working (working records failures pending) h = absurd (omega arith)
  not_working complete_result h = refl
  not_working (terminal_result retained) h = refl

  -- A batch of n > 0 records is finished after at most 2 n - 1 answers that do not ask for a retry,
  -- whatever they are and however many retries come between them.
  pub export_batch_terminates :
      (config : RetryConfig) (events : List Event) (batch : List (MappedLog A)) (w : Worker)
      → 1 ≤ length batch
      → 2 * length batch - 1 ≤ decisive events
      → is_working (attempts config events (w, export_batch batch)).1 ≡ false
  unfolding export_batch pop_batch budget
  export_batch_terminates config events batch w nonempty enough = not_working _ (
      attempts-Left 0 config events (w, export_batch batch) ((nonempty, tt), omega (arith, enough)))
