-- ===== src/Export/Worker/Batch/Order.antt =====
-- Which records a batch has completed, and in which order, whatever the collector answers.
use eden_logger.Export.Worker.Tracker.{Tracker, complete, complete_all}
use eden_logger.Export.Worker.Split.{split_records, flatten, flatten-split_records}
use eden_logger.Export.Worker.Batch.{
  ExportError, Response, succeeded, failed, Event, MappedLog, RetryConfig, Worker, Progress,
  working, complete_result, terminal_result, complete_ticket, count_attempt, count_exported,
  count_partial, warn_emergency, reject_record, retry_later, fail_terminally, complete_all_tickets,
  pop_batch, export_batch, isolate, on_error, on_response, attempt, attempts,
}
use mathlib.Core.List.{map-append}
use eden_logger.Base.{
  ℕ, ◌≡◌, refl, sym, ap, ◌∙◌, inl, inr, List, [], ◌∷◌, ◌++◌, map, append-nil, append_assoc, arith,
  ◌==◌, Bool-cases,
}

abbrev pub tickets {ℓ} : {A : Type ℓ} → List (MappedLog A) → List ℕ
tickets = map (λ r. r.ticket)

-- The records that are not complete, in the order in which they will be exported.
abbrev pub outstanding {ℓ} : {A : Type ℓ} → Progress A → List (MappedLog A)
outstanding (working records failures pending) = records ++ flatten pending
outstanding complete_result = []
outstanding (terminal_result retained) = flatten retained

completions-complete_ticket :
    (k : ℕ) (w : Worker) → (complete_ticket k w).completions ≡ complete w.completions k
unfolding complete_ticket complete
completions-complete_ticket k w = ground arith

complete_all-append :
    (t : Tracker) (xs ys : List ℕ) → complete_all t (xs ++ ys) ≡ complete_all (complete_all t xs) ys
unfolding complete_all
complete_all-append t [] ys = refl
complete_all-append t (x ∷ xs) ys = complete_all-append (complete t x) xs ys

module _ {ℓ} {A : Type ℓ} where
  completions-complete_all_tickets :
      (rs : List (MappedLog A)) (w : Worker)
      → (complete_all_tickets rs w).completions ≡ complete_all w.completions (tickets rs)
  unfolding complete_all_tickets complete_all
  completions-complete_all_tickets [] w = refl
  completions-complete_all_tickets (r ∷ rs) w =
      completions-complete_all_tickets rs (complete_ticket r.ticket w)
      ∙ ap (λ t. complete_all t (tickets rs)) (completions-complete_ticket r.ticket w)

  -- A first part of the batch is complete, ticket by ticket and in its order, and the rest is
  -- outstanding.
  pub record IsPrefixDone (batch : List (MappedLog A)) (t : Tracker) (s : Worker × Progress A)
      : Type ℓ where
    pub done : List (MappedLog A)
    pub parts : done ++ outstanding s.1 ≡ batch
    pub tracked : s.0.completions ≡ complete_all t (tickets done)

  outstanding-pop_batch :
      (pending : List (List (MappedLog A))) → outstanding (pop_batch pending) ≡ flatten pending
  unfolding pop_batch flatten
  outstanding-pop_batch [] = refl
  outstanding-pop_batch (b ∷ bs) = refl

  -- The current records are completed and the next batch is taken.
  completed-IsPrefixDone :
      (batch : List (MappedLog A)) (t : Tracker) (w v : Worker) (failures : ℕ)
      (records : List (MappedLog A)) (pending : List (List (MappedLog A)))
      → v.completions ≡ complete_all w.completions (tickets records)
      → IsPrefixDone batch t (w, working records failures pending)
      → IsPrefixDone batch t (v, pop_batch pending)
  completed-IsPrefixDone batch t w v failures records pending e x = record {
    done = x.done ++ records;
    parts = rw (append_assoc, outstanding-pop_batch) x.parts;
    tracked =
        e
        ∙ ap (λ u. complete_all u (tickets records)) x.tracked
        ∙ sym (complete_all-append t (tickets x.done) (tickets records))
        ∙ ap (complete_all t) (sym (map-append (λ r. r.ticket) x.done records));
  }

  -- Nothing is completed and the outstanding records stay as they are.
  same-IsPrefixDone :
      (batch : List (MappedLog A)) (t : Tracker) (w v : Worker) (p q : Progress A)
      → v.completions ≡ w.completions
      → outstanding q ≡ outstanding p
      → IsPrefixDone batch t (w, p)
      → IsPrefixDone batch t (v, q)
  same-IsPrefixDone batch t w v p q e o x = record {
    done = x.done;
    parts = ap (λ l. x.done ++ l) o ∙ x.parts;
    tracked = e ∙ x.tracked;
  }

  isolate-IsPrefixDone :
      (batch : List (MappedLog A)) (t : Tracker) (now : ℕ) (error : ExportError)
      (records : List (MappedLog A)) (failures : ℕ) (pending : List (List (MappedLog A)))
      (w : Worker)
      → IsPrefixDone batch t (w, working records failures pending)
      → IsPrefixDone batch t (isolate now error records pending w)
  unfolding isolate reject_record warn_emergency complete_all
  isolate-IsPrefixDone batch t now error [] failures pending w x =
      same-IsPrefixDone batch t w w _ _ refl
        (outstanding-pop_batch (split_records [] pending) ∙ flatten-split_records [] pending) x
  isolate-IsPrefixDone batch t now error (r ∷ []) failures pending w x =
      completed-IsPrefixDone batch t w _ failures (r ∷ []) pending
        (completions-complete_ticket r.ticket _) x
  isolate-IsPrefixDone batch t now error (r ∷ s ∷ rs) failures pending w x =
      same-IsPrefixDone batch t w w _ _ refl
        (outstanding-pop_batch (split_records (r ∷ s ∷ rs) pending)
          ∙ flatten-split_records (r ∷ s ∷ rs) pending)
        x

  on_error-IsPrefixDone :
      (batch : List (MappedLog A)) (t : Tracker) (config : RetryConfig) (event : Event)
      (error : ExportError) (records : List (MappedLog A)) (failures : ℕ)
      (pending : List (List (MappedLog A))) (w : Worker)
      → IsPrefixDone batch t (w, working records failures pending)
      → IsPrefixDone batch t (on_error config event error records failures pending w)
  unfolding on_error retry_later fail_terminally flatten
  on_error-IsPrefixDone batch t config event error records failures pending w x =
      elim (Bool-cases error.invalid_payload) [
        | inl invalid ↦
            simp invalid (isolate-IsPrefixDone batch t event.now error records failures pending w x)
        | inr valid ↦ elim (Bool-cases error.retryable) [
          | inl again ↦ rw (valid, again) (same-IsPrefixDone batch t w _ _ _ refl refl x)
          | inr fatal ↦ rw (valid, fatal) (same-IsPrefixDone batch t w _ _ _ refl refl x)
        ]
      ]

  on_response-IsPrefixDone :
      (batch : List (MappedLog A)) (t : Tracker) (config : RetryConfig) (event : Event)
      (response : Response) (records : List (MappedLog A)) (failures : ℕ)
      (pending : List (List (MappedLog A))) (w : Worker)
      → IsPrefixDone batch t (w, working records failures pending)
      → IsPrefixDone batch t (on_response config event response records failures pending w)
  unfolding on_response count_exported count_partial warn_emergency
  on_response-IsPrefixDone batch t config event (failed error) records failures pending w x =
      on_error-IsPrefixDone batch t config event error records failures pending w x
  on_response-IsPrefixDone batch t config event (succeeded accepted rejected message) records
        failures pending w x =
      elim (Bool-cases (rejected == 0)) [
        | inl full ↦ rw full (
            completed-IsPrefixDone batch t w _ failures records pending
              (completions-complete_all_tickets records _) x)
        | inr partial ↦ rw partial (
            completed-IsPrefixDone batch t w _ failures records pending
              (completions-complete_all_tickets records _) x)
      ]

  attempt-IsPrefixDone :
      (batch : List (MappedLog A)) (t : Tracker) (config : RetryConfig) (event : Event)
      (s : Worker × Progress A)
      → IsPrefixDone batch t s
      → IsPrefixDone batch t (attempt config event s)
  unfolding attempt count_attempt
  attempt-IsPrefixDone batch t config event (w, working records failures pending) x =
      on_response-IsPrefixDone batch t config event event.response records failures pending _
        (same-IsPrefixDone batch t w _ _ (working records failures pending) refl refl x)
  attempt-IsPrefixDone batch t config event (w, complete_result) x = x
  attempt-IsPrefixDone batch t config event (w, terminal_result retained) x = x

  attempts-keep :
      (batch : List (MappedLog A)) (t : Tracker) (config : RetryConfig) (events : List Event)
      (s : Worker × Progress A)
      → IsPrefixDone batch t s
      → IsPrefixDone batch t (attempts config events s)
  unfolding attempts
  attempts-keep batch t config [] s x = x
  attempts-keep batch t config (e ∷ es) s x =
      attempts-keep batch t config es (attempt config e s)
        (attempt-IsPrefixDone batch t config e s x)

  -- Whatever the collector answers to whatever number of attempts, the tickets that the batch has
  -- completed are those of a first part of it, each once and in its order, and the records after
  -- that part are outstanding in their order: none when the batch is complete, and those that are
  -- retained when it failed terminally.
  pub attempts-IsPrefixDone :
      (batch : List (MappedLog A)) (config : RetryConfig) (events : List Event) (w : Worker)
      → IsPrefixDone batch w.completions (attempts config events (w, export_batch batch))
  unfolding export_batch pop_batch complete_all flatten
  attempts-IsPrefixDone batch config events w =
      attempts-keep batch w.completions config events (w, export_batch batch)
        (record { done = []; parts = append-nil batch; tracked = refl })
